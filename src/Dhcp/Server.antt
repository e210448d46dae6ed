-- ===== src/Dhcp/Server.antt =====
-- `DhcpServer::handle` of crates/microfips-esp-common/src/dhcp_server.rs: the answer to a request and
-- the leases after it.
use microfips.Base.{
  ℕ, List, [], ◌∷◌, Option, none, some, Bool, true, false, ◌||◌, not, ◌==◌, if◌then◌else◌, set,
}
use microfips.Bytes.{eq_bytes}
use microfips.Exec.{Exec, ok, err, panic, Absent, ◌>>=◌}
use microfips.Dhcp.Request.{Request, parse_request}
use microfips.Dhcp.Leases.{
  Server, Lease, ip_for, find_lease, lease_at, preferred_idx, allocate, commit, is_free,
}

abbrev pub msg_discover : ℕ
msg_discover = 1

abbrev pub msg_offer : ℕ
msg_offer = 2

abbrev pub msg_request : ℕ
msg_request = 3

abbrev pub msg_ack : ℕ
msg_ack = 5

abbrev pub msg_nak : ℕ
msg_nak = 6

abbrev pub msg_release : ℕ
msg_release = 7

-- The type and the address of a reply.
pub record Answer : Type 0 where
  pub msg_type : ℕ
  pub yiaddr : List ℕ

abbrev pub zero_ip : List ℕ
zero_ip = 0 ∷ 0 ∷ 0 ∷ 0 ∷ []

abbrev pub nak : Answer
nak = record { msg_type = msg_nak; yiaddr = zero_ip }

abbrev pub offer : Server → Option ℕ → Exec Absent (Option Answer × Server)
offer s none = ok (none, s)
offer s (some idx) = do
  ip ← ip_for s idx
  ok (some (record { msg_type = msg_offer; yiaddr = ip }), s)

unfoldable pub on_discover : Server → Request → (now : ℕ) → Exec Absent (Option Answer × Server)
on_discover s req now = offer s (allocate s req.chaddr now req.requested_ip)

-- The client chose the offer of another server.
abbrev pub is_for_other : Server → Option (List ℕ) → Bool
is_for_other s none = false
is_for_other s (some sid) = not (eq_bytes sid s.cfg.server_ip)

abbrev pub wanted : Request → Option (List ℕ)
wanted req = elim req.requested_ip [
  | none ↦ if eq_bytes req.ciaddr zero_ip then none else some req.ciaddr
  | some ip ↦ some ip
]

-- A lease that a client with this MAC may take.
abbrev pub may_take : (mac : List ℕ) (now : ℕ) → Option Lease → Bool
may_take mac now none = true
may_take mac now (some l) = eq_bytes l.mac mac || is_free now (some l)

-- The place that a request gets; `none` is decide_parsed by a NAK.
abbrev pub place_at : Option ℕ → Option (List ℕ) → Server → (mac : List ℕ) (now : ℕ) → Option ℕ
place_at (some idx) want s mac now = if may_take mac now (lease_at s idx) then some idx else none
place_at none none s mac now = allocate s mac now none
place_at none (some ip) s mac now = none

abbrev pub acknowledge :
    Option ℕ → Server → (mac : List ℕ) (now : ℕ) → Exec Absent (Option Answer × Server)
acknowledge none s mac now = ok (some nak, s)
acknowledge (some idx) s mac now = do
  s' ← commit s idx mac now
  ip ← ip_for s' idx
  ok (some (record { msg_type = msg_ack; yiaddr = ip }), s')

unfoldable pub on_request : Server → Request → (now : ℕ) → Exec Absent (Option Answer × Server)
on_request s req now =
    let want = wanted req in
    if is_for_other s req.server_id
    then ok (none, s)
    else acknowledge (place_at (preferred_idx s want) want s req.chaddr now) s req.chaddr now

abbrev pub drop_lease : Option ℕ → Server → Server
drop_lease none s = s
drop_lease (some idx) s = record s { leases = set s.leases idx none }

unfoldable pub on_release : Server → Request → (now : ℕ) → Exec Absent (Option Answer × Server)
on_release s req now = ok (none, drop_lease (find_lease s req.chaddr now) s)

-- What `handle` answers to a request.
unfoldable pub answer : Server → Request → (now : ℕ) → Exec Absent (Option Answer × Server)
answer s req now =
    if req.msg_type == msg_discover
    then on_discover s req now
    else if req.msg_type == msg_request
    then on_request s req now
    else if req.msg_type == msg_release
    then on_release s req now
    else ok (none, s)

abbrev pub with_request : Request → Option Answer → Option (Request × Answer)
with_request req none = none
with_request req (some a) = some (req, a)

-- A packet that is no request is not decide_parsed.
abbrev pub decide_parsed :
    Exec Absent Request → Server → (now : ℕ) → Exec Absent (Option (Request × Answer) × Server)
decide_parsed (ok req) s now = do
  decided ← answer s req now
  ok (with_request req decided.0, decided.1)
decide_parsed (err e) s now = ok (none, s)
decide_parsed panic s now = panic

-- `handle` up to the writing of the reply: the request and its answer.
unfoldable pub decide :
    Server → (packet : List ℕ) (now : ℕ) → Exec Absent (Option (Request × Answer) × Server)
decide s packet now = decide_parsed (parse_request packet) s now

-- The answers to packets that arrive one after the other, each at its time.
unfoldable pub decide_all :
    Server → List (List ℕ × ℕ) → Exec Absent (List (Option (Request × Answer)) × Server)
decide_all s [] = ok ([], s)
decide_all s ((packet, now) ∷ rest) = do
  one ← decide s packet now
  more ← decide_all one.1 rest
  ok (one.0 ∷ more.0, more.1)
