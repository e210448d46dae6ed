-- ===== src/Fmp/Prefix.antt =====
-- The common prefix: what is built is parsed, and how it meets the rest of a frame.
use microfips.Base.{ℕ, ◌+◌, ◌*◌, ◌/◌, ◌%◌, ◌^◌, ◌<◌, bit_and, List, [], ◌∷◌, ◌++◌}
use microfips.Base.{◌≡◌, arith, ◌!=◌, if◌then◌else◌}
use microfips.Bits.{bit_or-fields, bit_and_mask}
use microfips.Bytes.{from_le}
use microfips.Exec.{ok, err, absent, index}
use microfips.Fmp.{Wire, ik, xx, fmp_version, ver_phase_byte, build_prefix, parse_prefix}

-- On a frame of four bytes or more, only the version can be wrong.
pub parse_prefix-cons :
    (wire : Wire) (b0 b1 b2 b3 : ℕ) (rest : List ℕ)
    → parse_prefix wire (b0 ∷ b1 ∷ b2 ∷ b3 ∷ rest) ≡ (
        if b0 / 16 != fmp_version wire
        then err absent
        else ok (bit_and b0 0x0f, b1, from_le (b2 ∷ b3 ∷ [])))
unfolding parse_prefix index
parse_prefix-cons wire b0 b1 b2 b3 rest = ground arith

pub ver_phase_byte_sum :
    (version phase : ℕ)
    → version < 16
    → phase < 16
    → ver_phase_byte version phase ≡ version * 16 + phase
unfolding ver_phase_byte
ver_phase_byte_sum version phase hv hp =
    let low : bit_and phase 0x0f ≡ phase = omega (arith, bit_and_mask 4 phase) in
    let high : version * 16 % 256 ≡ version * 2 ^ 4 = omega arith in
    rw (low, high) (bit_or-fields 4 version phase hp)

fmp_version-lt : (wire : Wire) → fmp_version wire < 16
fmp_version-lt ik = omega arith
fmp_version-lt xx = omega arith

-- A prefix that was built is parsed, whatever follows it.
pub parse_prefix-build_prefix :
    (wire : Wire) (phase flags payload_len : ℕ) (rest : List ℕ)
    → phase < 16
    → payload_len < 2 ^ 16
    → parse_prefix wire (build_prefix wire phase flags payload_len ++ rest)
      ≡ ok (phase, flags, payload_len)
unfolding build_prefix
parse_prefix-build_prefix wire phase flags payload_len rest hp hl =
    let whole = ver_phase_byte_sum (fmp_version wire) phase (fmp_version-lt wire) hp in
    let version : (fmp_version wire * 16 + phase) / 16 ≡ fmp_version wire = omega arith in
    let low : bit_and (fmp_version wire * 16 + phase) 0x0f ≡ phase =
      omega (arith, bit_and_mask 4 (fmp_version wire * 16 + phase)) in
    let len : from_le (payload_len % 256 ∷ payload_len / 256 % 256 ∷ []) ≡ payload_len =
      omega arith in
    rw
      (
        parse_prefix-cons wire (ver_phase_byte (fmp_version wire) phase) flags (payload_len % 256)
            (payload_len / 256 % 256) rest,
        whole,
        version,
        low,
        len,
      )
      (ground arith)
