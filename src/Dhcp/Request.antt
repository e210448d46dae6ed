-- ===== src/Dhcp/Request.antt =====
-- `parse_request` of crates/microfips-esp-common/src/dhcp_server.rs.
use microfips.Base.{
  ℕ, zero, suc, ◌+◌, ◌-◌, List, [], ◌∷◌, Option, none, some, ◌&&◌, ◌||◌, not, ltb, leb, ◌==◌, ◌!=◌,
  if◌then◌else◌, length, take, drop, get_or,
}
use microfips.Bytes.{eq_bytes}
use microfips.Exec.{Exec, ok, err, panic, Absent, absent, ◌>>=◌, index, slice}

abbrev pub op_request : ℕ
op_request = 1

abbrev pub op_reply : ℕ
op_reply = 2

abbrev pub magic_cookie : List ℕ
magic_cookie = 99 ∷ 130 ∷ 83 ∷ 99 ∷ []

abbrev pub options_start : ℕ
options_start = 240

abbrev pub opt_requested_ip : ℕ
opt_requested_ip = 50

abbrev pub opt_msg_type : ℕ
opt_msg_type = 53

abbrev pub opt_server_id : ℕ
opt_server_id = 54

abbrev pub opt_end : ℕ
opt_end = 255

pub record Request : Type 0 where
  pub xid : List ℕ
  pub flags : List ℕ
  pub chaddr : List ℕ
  pub ciaddr : List ℕ
  pub msg_type : ℕ
  pub requested_ip : Option (List ℕ)
  pub server_id : Option (List ℕ)

-- `packet.get(i)?` and `packet.get(a..b)?`
unfoldable pub get : List ℕ → ℕ → Exec Absent ℕ
get packet i = if ltb i (length packet) then ok (get_or packet i 0) else err absent

unfoldable pub get_range : List ℕ → (a b : ℕ) → Exec Absent (List ℕ)
get_range packet a b =
    if leb b (length packet) then ok (take (b - a) (drop a packet)) else err absent

-- What an option sets; `value` has `len` bytes.
unfoldable pub set_option : (code len : ℕ) (value : List ℕ) → Request → Request
set_option code len value req =
    if code == opt_msg_type && len == 1
    then record req { msg_type = get_or value 0 0 }
    else if code == opt_requested_ip && len == 4
    then record req { requested_ip = some value }
    else if code == opt_server_id && len == 4
    then record req { server_id = some value }
    else req

-- The loop over the options, with fuel, from the offset `off`; `panic` when the fuel is used up.
unfoldable pub parse_options :
    (fuel : ℕ) (packet : List ℕ) (off : ℕ) → Request → Exec Absent Request
parse_options zero packet off req = panic
parse_options (suc fuel) packet off req =
    let padding = parse_options fuel packet (off + 1) req in
    let further = λ (code : ℕ). (do
      len ← get packet (off + 1)
      value ← get_range packet (off + 2) (off + 2 + len)
      parse_options fuel packet (off + (2 + len)) (set_option code len value req)) in
    if ltb off (length packet)
    then (do
      code ← index packet off
      if code == opt_end then ok req else if code == 0 then padding else further code)
    else ok req

unfoldable pub read_header : List ℕ → Exec Absent Request
read_header packet = do
  xid ← slice packet 4 8
  flags ← slice packet 10 12
  chaddr ← slice packet 28 34
  ciaddr ← slice packet 12 16
  ok (record {
    xid = xid;
    flags = flags;
    chaddr = chaddr;
    ciaddr = ciaddr;
    msg_type = 0;
    requested_ip = none;
    server_id = none;
  })

-- What follows the tests of the fixed part.
unfoldable pub parse_body : List ℕ → Exec Absent Request
parse_body packet = do
  fixed ← read_header packet
  req ← parse_options (suc (length packet)) packet options_start fixed
  if req.msg_type == 0 then err absent else ok req

-- `None` of the source is `err absent`.
unfoldable pub parse_request : List ℕ → Exec Absent Request
parse_request packet = if ltb (length packet) options_start then err absent else do
  op ← index packet 0
  cookie ← slice packet 236 240
  if op != op_request || not (eq_bytes cookie magic_cookie) then err absent else parse_body packet
