-- ===== src/Fsp/Datagram.antt =====
-- The datagrams that a session carries, and the inner header: `FspDatagram`, `Ipv6Shim`,
-- `fsp_prepend_inner_header` and `fsp_strip_inner_header` of crates/microfips-core/src/fsp.rs.
use microfips.Base.{ℕ, ◌+◌, List, length, ltb, if◌then◌else◌}
use microfips.Bytes.{le_bytes}
use microfips.Exec.{
  Exec, ok, err, panic, Absent, absent, index, store, slice_from, read_le, copy_into, ◌>>=◌,
}

pub record FspDatagram : Type 0 where
  pub src_port : ℕ
  pub dst_port : ℕ
  pub payload : List ℕ

-- The `assert!` on the size of `out` is a panic.
unfoldable pub serialize_datagram : FspDatagram → List ℕ → Exec Absent (ℕ × List ℕ)
serialize_datagram d out =
    let total = 4 + length d.payload in
    if ltb (length out) total then panic else (do
      with_src ← copy_into out 0 2 (le_bytes 2 d.src_port)
      with_dst ← copy_into with_src 2 4 (le_bytes 2 d.dst_port)
      whole ← copy_into with_dst 4 total d.payload
      ok (total, whole))

unfoldable pub parse_datagram : List ℕ → Exec Absent FspDatagram
parse_datagram buf = if ltb (length buf) 4 then err absent else (do
  src_port ← read_le buf 0 2
  dst_port ← read_le buf 2 4
  payload ← slice_from buf 4
  ok (record { src_port = src_port; dst_port = dst_port; payload = payload }))

pub record Ipv6Shim : Type 0 where
  pub next_header : ℕ
  pub hop_limit : ℕ
  pub payload : List ℕ

unfoldable pub serialize_shim : Ipv6Shim → List ℕ → Exec Absent (ℕ × List ℕ)
serialize_shim s out =
    let total = 6 + length s.payload in
    if ltb (length out) total then panic else (do
      b0 ← store out 0 0
      b1 ← store b0 1 0
      b2 ← store b1 2 0
      b3 ← store b2 3 0
      b4 ← store b3 4 s.next_header
      b5 ← store b4 5 s.hop_limit
      whole ← copy_into b5 6 total s.payload
      ok (total, whole))

unfoldable pub parse_shim : List ℕ → Exec Absent Ipv6Shim
parse_shim buf = if ltb (length buf) 6 then err absent else (do
  next_header ← index buf 4
  hop_limit ← index buf 5
  payload ← slice_from buf 6
  ok (record { next_header = next_header; hop_limit = hop_limit; payload = payload }))

-- A result of 0 stands for a buffer that is too small.
unfoldable pub fsp_prepend_inner_header : ℕ → ℕ → ℕ → List ℕ → List ℕ → Exec Absent (ℕ × List ℕ)
fsp_prepend_inner_header timestamp_ms msg_type inner_flags payload out =
    let total = 6 + length payload in
    if ltb (length out) total then ok (0, out) else (do
      with_time ← copy_into out 0 4 (le_bytes 4 timestamp_ms)
      with_type ← store with_time 4 msg_type
      with_flags ← store with_type 5 inner_flags
      whole ← copy_into with_flags 6 total payload
      ok (total, whole))

unfoldable pub fsp_strip_inner_header : List ℕ → Exec Absent (ℕ × ℕ × ℕ × List ℕ)
fsp_strip_inner_header buf = if ltb (length buf) 6 then err absent else (do
  timestamp ← read_le buf 0 4
  msg_type ← index buf 4
  inner_flags ← index buf 5
  payload ← slice_from buf 6
  ok (timestamp, msg_type, inner_flags, payload))
