-- ===== src/Fsp/Payload.antt =====
-- Datagrams, shims and inner headers that are written are read back.
use microfips.Base.{ℕ, ◌+◌, ◌^◌, ◌≤◌, ◌<◌, List, [], ◌∷◌, ◌++◌, length, ◌≡◌, refl, arith, le→ltb}
use microfips.Bytes.{le_bytes}
use microfips.Exec.{ok}
use microfips.Exec.Laws.{read_le-append, slice_from-append, index_lem}
use microfips.Fmp.RoundTrip.{Wrote}
use microfips.Base.{◌∙◌, ap}
use microfips.Exec.Write.{after, next, next_byte}
use microfips.Fsp.Datagram.{
  FspDatagram, serialize_datagram, parse_datagram, Ipv6Shim, serialize_shim,
}
use microfips.Fsp.Datagram.{parse_shim, fsp_prepend_inner_header, fsp_strip_inner_header}

-- A datagram between two `u16` ports, in a buffer that holds it, is written whole at the front of
-- the buffer with no panic, with the rest left as it was, and parsed.
pub parse-serialize_datagram :
    (d : FspDatagram) (out : List ℕ)
    → d.src_port < 2 ^ 16
    → d.dst_port < 2 ^ 16
    → 4 + length d.payload ≤ length out
    → (bytes : List ℕ) × Wrote (serialize_datagram d out) out bytes × (parse_datagram bytes ≡ ok d)
unfolding serialize_datagram parse_datagram
parse-serialize_datagram d out small_src small_dst fits =
    let src = le_bytes 2 d.src_port in
    let dst = le_bytes 2 d.dst_port in
    let bytes = src ++ (dst ++ d.payload) in
    let total : 4 + length d.payload ≡ length bytes = omega arith in
    (
      bytes,
      rw (
        le→ltb (length out) (4 + length d.payload) fits,
        next [] src out 0 2 refl refl (omega arith),
        next src dst out 2 4 refl refl (omega arith),
        next (src ++ dst) d.payload out 4 (4 + length d.payload) refl refl fits,
        total,
      ),
      rw (
        le→ltb (length bytes) 4 (omega arith),
        read_le-append [] (dst ++ d.payload) 2 d.src_port 0 2 refl refl small_src,
        read_le-append src d.payload 2 d.dst_port 2 4 refl refl small_dst,
        slice_from-append (src ++ dst) d.payload 4 refl,
      ),
    )

abbrev pub inner_bytes : ℕ → ℕ → ℕ → List ℕ → List ℕ
inner_bytes timestamp msg_type inner_flags payload =
    le_bytes 4 timestamp ++ (msg_type ∷ inner_flags ∷ payload)

module _ (timestamp msg_type inner_flags : ℕ) (payload : List ℕ) where
  pub fsp_prepend_inner_header_lem :
      (out : List ℕ)
      → 6 + length payload ≤ length out
      → fsp_prepend_inner_header timestamp msg_type inner_flags payload out
        ≡ ok (6 + length payload, after (inner_bytes timestamp msg_type inner_flags payload) out)
  unfolding fsp_prepend_inner_header
  fsp_prepend_inner_header_lem out fits =
      let time = le_bytes 4 timestamp in
      rw (
        le→ltb (length out) (6 + length payload) fits,
        next [] time out 0 4 refl refl (omega arith),
        next_byte time out 4 msg_type refl (omega arith),
        next_byte (time ++ (msg_type ∷ [])) out 5 inner_flags refl (omega arith),
        next (time ++ (msg_type ∷ inner_flags ∷ [])) payload out 6 (6 + length payload) refl refl
            fits,
      )

  pub fsp_strip_inner_header_lem :
      timestamp < 2 ^ 32
      → fsp_strip_inner_header (inner_bytes timestamp msg_type inner_flags payload)
        ≡ ok (timestamp, msg_type, inner_flags, payload)
  unfolding fsp_strip_inner_header
  fsp_strip_inner_header_lem small =
      let time = le_bytes 4 timestamp in
      let bytes = inner_bytes timestamp msg_type inner_flags payload in
      rw (
        le→ltb (length bytes) 6 (omega arith),
        read_le-append [] (msg_type ∷ inner_flags ∷ payload) 4 timestamp 0 4 refl refl small,
        index_lem bytes 4 (omega arith),
        index_lem bytes 5 (omega arith),
        slice_from-append (time ++ (msg_type ∷ inner_flags ∷ [])) payload 6 refl,
      )

-- An inner header with a `u32` timestamp and its payload, in a buffer that holds them, are written
-- whole at the front of the buffer, with the rest left as it was, and read back.
pub strip-prepend_inner_header :
    (timestamp msg_type inner_flags : ℕ) (payload out : List ℕ)
    → timestamp < 2 ^ 32
    → 6 + length payload ≤ length out
    → (bytes : List ℕ) × Wrote
        (fsp_prepend_inner_header timestamp msg_type inner_flags payload out)
        out
        bytes
      × (fsp_strip_inner_header bytes ≡ ok (timestamp, msg_type, inner_flags, payload))
strip-prepend_inner_header timestamp msg_type inner_flags payload out small fits =
    let total : 6 + length payload ≡ length (inner_bytes timestamp msg_type inner_flags payload) =
      omega arith in
    (
      inner_bytes timestamp msg_type inner_flags payload,
      fsp_prepend_inner_header_lem timestamp msg_type inner_flags payload out fits
          ∙ ap (λ n. ok (n, after (inner_bytes timestamp msg_type inner_flags payload) out)) total,
      fsp_strip_inner_header_lem timestamp msg_type inner_flags payload small,
    )

-- A shim, in a buffer that holds it, is written whole at the front of the buffer with no panic,
-- with the rest left as it was, and parsed.
pub parse-serialize_shim :
    (s : Ipv6Shim) (out : List ℕ)
    → 6 + length s.payload ≤ length out
    → (bytes : List ℕ) × Wrote (serialize_shim s out) out bytes × (parse_shim bytes ≡ ok s)
unfolding serialize_shim parse_shim
parse-serialize_shim s out fits =
    let head = 0 ∷ 0 ∷ 0 ∷ 0 ∷ s.next_header ∷ s.hop_limit ∷ [] in
    let bytes = head ++ s.payload in
    let total : 6 + length s.payload ≡ length bytes = omega arith in
    (
      bytes,
      rw (
        le→ltb (length out) (6 + length s.payload) fits,
        next_byte [] out 0 0 refl (omega arith),
        next_byte (0 ∷ []) out 1 0 refl (omega arith),
        next_byte (0 ∷ 0 ∷ []) out 2 0 refl (omega arith),
        next_byte (0 ∷ 0 ∷ 0 ∷ []) out 3 0 refl (omega arith),
        next_byte (0 ∷ 0 ∷ 0 ∷ 0 ∷ []) out 4 s.next_header refl (omega arith),
        next_byte (0 ∷ 0 ∷ 0 ∷ 0 ∷ s.next_header ∷ []) out 5 s.hop_limit refl (omega arith),
        next head s.payload out 6 (6 + length s.payload) refl refl fits,
        total,
      ),
      rw (
        le→ltb (length bytes) 6 (omega arith),
        index_lem bytes 4 (omega arith),
        index_lem bytes 5 (omega arith),
        slice_from-append head s.payload 6 refl,
      ),
    )
