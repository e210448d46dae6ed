-- ===== src/Fmp/Header.antt =====
-- The header views of crates/fips-fmp/src/lib.rs that a node takes of a received frame.
use microfips.Base.{ℕ, ◌+◌, List, length, ltb, ◌!=◌, if◌then◌else◌}
use microfips.Base.{
  ◌≡◌, arith, take, drop, length-take, length-drop, ◌<◌, ◌≤◌, ◌^◌, ltb→le, Bool-cases, inl, inr,
}
use microfips.Bytes.{IsBytes, from_le, from_le-lt, take-IsBytes, drop-IsBytes}
use microfips.Exec.Laws.{read_le_lem, slice_lem}
use microfips.Exec.Post.{Gives, Gives-if, Gives-bind, IsNotPanic-Gives}
use microfips.Exec.{Exec, ok, err, Absent, absent, read_le, slice, ◌>>=◌}
use microfips.Fmp.{Wire, ik, xx, parse_prefix, phase_established, established_header_size}
use microfips.Fmp.Total.{parse_prefix-IsNotPanic}
use microfips.Fmp.{common_prefix_size, idx_size}

-- `HANDSHAKE_MSG1_SIZE` and its kin: of the crate fips-proto-defs for the Noise IK and XK wire, of
-- crates/fips-noise/src/lib.rs for Noise XX.
abbrev pub handshake_msg1_size : Wire → ℕ
handshake_msg1_size ik = 106
handshake_msg1_size xx = 33

abbrev pub handshake_msg2_size : Wire → ℕ
handshake_msg2_size ik = 57
handshake_msg2_size xx = 106

abbrev pub handshake_msg3_size : Wire → ℕ
handshake_msg3_size ik = 73
handshake_msg3_size xx = 73

abbrev pub msg1_wire_size : Wire → ℕ
msg1_wire_size wire = common_prefix_size + idx_size + handshake_msg1_size wire

abbrev pub msg2_wire_size : Wire → ℕ
msg2_wire_size wire = common_prefix_size + idx_size + idx_size + handshake_msg2_size wire

abbrev pub msg3_wire_size : Wire → ℕ
msg3_wire_size wire = common_prefix_size + idx_size + idx_size + handshake_msg3_size wire

pub record EncryptedHeader : Type 0 where
  pub receiver_idx : ℕ
  pub counter : ℕ
  pub header_bytes : List ℕ

-- The fields of a header whose length and phase were checked.
unfoldable pub read_established_fields : List ℕ → Exec Absent EncryptedHeader
read_established_fields buf = do
  receiver_idx ← read_le buf 4 8
  counter ← read_le buf 8 16
  header_bytes ← slice buf 0 established_header_size
  ok (record { receiver_idx = receiver_idx; counter = counter; header_bytes = header_bytes })

-- `EncryptedHeader::parse`
unfoldable pub parse_encrypted_header : Wire → List ℕ → Exec Absent EncryptedHeader
parse_encrypted_header wire buf =
    if ltb (length buf) established_header_size then err absent else (do
      (phase, flags, payload_len) ← parse_prefix wire buf
      if phase != phase_established then err absent else read_established_fields buf)

-- A header taken of a frame that holds it whole, with a `u64` for a counter.
abbrev pub IsHeaderOf : List ℕ → EncryptedHeader → Type 0
IsHeaderOf buf enc = (16 ≤ length buf) × (enc.counter < 2 ^ 64)

read_established_fields-IsHeaderOf :
    (buf : List ℕ)
    → IsBytes buf
    → 16 ≤ length buf
    → Gives (IsHeaderOf buf) (read_established_fields buf)
unfolding read_established_fields
read_established_fields-IsHeaderOf buf h fits =
    let field = take 8 (drop 8 buf) in
    let size : length field ≡ 8 = omega (arith, length-take 8 (drop 8 buf), length-drop 8 buf) in
    let below : from_le field < 256 ^ 8 =
      rw size at (from_le-lt field (take-IsBytes 8 (drop 8 buf) (drop-IsBytes 8 buf h))) in
    rw
      (
        read_le_lem buf 4 8 (omega arith) (omega arith),
        read_le_lem buf 8 16 (omega arith) (omega arith),
        slice_lem buf 0 16 (omega arith) (omega arith),
      )
      (fits, below)

-- No frame makes the header view read out of range; where it gives a header, the frame holds 16
-- bytes, and a counter that it reads from bytes is a `u64`.
pub parse_encrypted_header-IsHeaderOf :
    (wire : Wire) (buf : List ℕ)
    → IsBytes buf
    → Gives (IsHeaderOf buf) (parse_encrypted_header wire buf)
unfolding parse_encrypted_header
parse_encrypted_header-IsHeaderOf wire buf h = elim (Bool-cases (ltb (length buf) 16)) [
  | inl short ↦ rw short tt
  | inr long ↦ rw long (
      Gives-bind (λ p. Unit {0}) (IsHeaderOf buf) (parse_prefix wire buf) _
        (IsNotPanic-Gives (parse_prefix wire buf) (parse_prefix-IsNotPanic wire buf))
        (λ p _.
          Gives-if (IsHeaderOf buf) (p.0 != phase_established) _ _ (λ other. tt)
            (λ same. read_established_fields-IsHeaderOf buf h (ltb→le (length buf) 16 long))))
]
