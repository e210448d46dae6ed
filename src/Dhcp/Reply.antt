-- ===== src/Dhcp/Reply.antt =====
-- `build_reply` of crates/microfips-esp-common/src/dhcp_server.rs, and `handle` with it.
use microfips.Base.{
  ℕ, ◌+◌, ◌%◌, min, max, List, [], ◌∷◌, ◌++◌, Option, none, some, length, drop, replicate, bit_or,
  ◌==◌, if◌then◌else◌,
}
use microfips.Exec.{Exec, ok, Absent, ◌>>=◌, index, store, copy_into}
use microfips.Dhcp.Request.{Request, op_reply, magic_cookie, opt_msg_type, opt_server_id, opt_end}
use microfips.Dhcp.Leases.{Config, Server, to_be}
use microfips.Dhcp.Server.{Answer, decide, msg_nak}

abbrev pub min_reply_len : ℕ
min_reply_len = 300

abbrev pub opt_lease_time : ℕ
opt_lease_time = 51

abbrev pub opt_subnet : ℕ
opt_subnet = 1

abbrev pub opt_router : ℕ
opt_router = 3

abbrev pub opt_dns : ℕ
opt_dns = 6

-- `for b in out.iter_mut().take(MIN_REPLY_LEN) { *b = 0 }`
abbrev pub zero_fill : List ℕ → List ℕ
zero_fill out = replicate (min min_reply_len (length out)) 0 ++ drop min_reply_len out

-- The closure `put`, on the offset and the buffer.
unfoldable pub put : (code : ℕ) (value : List ℕ) → ℕ × List ℕ → Exec Absent (ℕ × List ℕ)
put code value (off, out) = do
  out ← store out off code
  out ← store out (off + 1) (length value % 256)
  out ← copy_into out (off + 2) (off + 2 + length value) value
  ok (off + (2 + length value), out)

-- The options that a NAK does not have.
unfoldable pub put_lease : Config → ℕ × List ℕ → Exec Absent (ℕ × List ℕ)
unfolding put
put_lease cfg at = do
  at ← put opt_lease_time (to_be cfg.lease_secs) at
  at ← put opt_subnet cfg.subnet_mask at
  at ← put opt_router cfg.server_ip at
  put opt_dns cfg.server_ip at

unfoldable pub put_header : Config → Request → (yiaddr : List ℕ) → List ℕ → Exec Absent (List ℕ)
put_header cfg req yiaddr out = do
  out ← store out 0 op_reply
  out ← store out 1 1
  out ← store out 2 6
  out ← copy_into out 4 8 req.xid
  high ← index req.flags 0
  out ← store out 10 (bit_or high 0x80)
  low ← index req.flags 1
  out ← store out 11 low
  out ← copy_into out 16 20 yiaddr
  out ← copy_into out 20 24 cfg.server_ip
  out ← copy_into out 28 34 req.chaddr
  copy_into out 236 240 magic_cookie

unfoldable pub build_reply : Config → Request → Answer → (out : List ℕ) → Exec Absent (ℕ × List ℕ)
unfolding put put_lease put_header
build_reply cfg req a out = do
  out ← put_header cfg req a.yiaddr (zero_fill out)
  at ← put opt_msg_type (a.msg_type ∷ []) (240, out)
  at ← put opt_server_id cfg.server_ip at
  at ← (if a.msg_type == msg_nak then ok at else put_lease cfg at)
  out ← store at.1 at.0 opt_end
  ok (max (at.0 + 1) min_reply_len, out)

abbrev pub write_answer :
    Config → Option (Request × Answer) → List ℕ → Exec Absent (Option ℕ × List ℕ)
write_answer cfg none out = ok (none, out)
write_answer cfg (some (req, a)) out = do
  built ← build_reply cfg req a out
  ok (some built.0, built.1)

-- `handle`: the length of the reply, the buffer and the server.
unfoldable pub handle :
    Server → (packet : List ℕ) (now : ℕ) (out : List ℕ) → Exec Absent ((Option ℕ × List ℕ) × Server)
handle s packet now out = do
  decided ← decide s packet now
  sent ← write_answer decided.1.cfg decided.0 out
  ok (sent, decided.1)
