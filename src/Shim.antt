-- ===== src/Shim.antt =====
-- The answer to an ICMPv6 echo request, crates/microfips-core/src/ipv6_shim.rs.
pub mod Checksum
mod Tests
use microfips.Base.{
  ℕ, zero, suc, ◌+◌, ◌-◌, ◌*◌, ◌/◌, ◌%◌, ◌^◌, List, [], ◌∷◌, Option, none, some, Bool, ltb, ◌==◌,
  ◌!=◌, ◌||◌, ◌&&◌, if◌then◌else◌, length, bit_and, take, drop,
}
use microfips.Exec.{
  Exec, ok, err, panic, Absent, absent, ◌>>=◌, index, store, slice, copy_into, read_le,
}

abbrev pub port_header_size : ℕ
port_header_size = 4

abbrev pub shim_header_size : ℕ
shim_header_size = 7

abbrev pub icmpv6_echo_min : ℕ
icmpv6_echo_min = 8

abbrev pub port_ipv6_shim : ℕ
port_ipv6_shim = 256

abbrev pub ipproto_icmpv6 : ℕ
ipproto_icmpv6 = 58

abbrev pub icmpv6_echo_request : ℕ
icmpv6_echo_request = 128

abbrev pub icmpv6_echo_response : ℕ
icmpv6_echo_response = 129

abbrev pub reply_hop_limit : ℕ
reply_hop_limit = 64

-- `while sum >> 16 != 0`, with fuel; it still runs when the fuel is used up in `none`.
unfoldable pub fold_carries : (fuel sum : ℕ) → Option ℕ
fold_carries zero sum = none
fold_carries (suc fuel) sum =
    let again = fold_carries fuel (sum % 2 ^ 16 + sum / 2 ^ 16) in
    if sum / 2 ^ 16 != 0 then again else some sum

abbrev pub complement : Option ℕ → Option ℕ
complement none = none
complement (some sum) = some (2 ^ 16 - 1 - sum % 2 ^ 16)

-- `!hc` of a `u16` is `0xffff - hc`.
unfoldable pub checksum_update : (hc m m_new : ℕ) → Option ℕ
checksum_update hc m m_new =
    complement (fold_carries 3 ((2 ^ 16 - 1 - hc) + (2 ^ 16 - 1 - m) + m_new))

-- A loop without end does not return.
abbrev pub ended : Option ℕ → Exec Absent ℕ
ended none = panic
ended (some n) = ok n

-- Whether the payload is a request that is answered; it has the 19 bytes that are read.
unfoldable pub is_echo_request : List ℕ → Exec Absent Bool
is_echo_request payload = do
  dst_port ← read_le payload 2 4
  format ← index payload 4
  version ← index payload 5
  next_header ← index payload 9
  kind ← index payload 11
  code ← index payload 12
  ok (
      dst_port == port_ipv6_shim
      && format == 0
      && version / 2 ^ 4 == 6
      && next_header == ipproto_icmpv6
      && kind == icmpv6_echo_request
      && code == 0)

unfoldable pub write_reply : (payload out : List ℕ) → Exec Absent (ℕ × List ℕ)
write_reply payload out = do
  out ← copy_into out 0 (length payload) payload
  dst ← slice payload 2 4
  out ← copy_into out 0 2 dst
  src ← slice payload 0 2
  out ← copy_into out 2 4 src
  out ← store out 10 reply_hop_limit
  out ← store out 11 icmpv6_echo_response
  high ← index out 13
  low ← index out 14
  sum ←
      ended (
        checksum_update (high * 256 + low) (icmpv6_echo_request * 256) (icmpv6_echo_response * 256))
  out ← copy_into out 13 15 (sum / 256 ∷ sum % 256 ∷ [])
  ok (length payload, out)

-- `None` is `err absent`.
unfoldable pub icmpv6_echo_reply : (payload out : List ℕ) → Exec Absent (ℕ × List ℕ)
icmpv6_echo_reply payload out =
    if ltb (length payload) (port_header_size + shim_header_size + icmpv6_echo_min)
      || ltb (length out) (length payload)
    then err absent
    else do
      request ← is_echo_request payload
      if request then write_reply payload out else err absent
