-- ===== src/Hex.antt =====
-- Hexadecimal text, crates/microfips-core/src/hex.rs. A text is the list of its bytes.
pub mod RoundTrip
mod Tests
use microfips.Base.{
  ℕ, zero, suc, ◌+◌, ◌-◌, ◌*◌, ◌/◌, ◌%◌, ◌^◌, List, [], ◌∷◌, Bool, true, false, ◌&&◌, leb, ltb,
  ◌==◌, if◌then◌else◌, length, bit_and, bit_or,
}
use microfips.Exec.{Exec, ok, panic, Absent, ◌>>=◌, index, store}

-- A byte that is no digit panics.
unfoldable pub hex_nibble : ℕ → Exec Absent ℕ
hex_nibble b =
    if leb 48 b && leb b 57
    then ok (b - 48)
    else if leb 97 b && leb b 102
    then ok (b - 97 + 10)
    else if leb 65 b && leb b 70
    then ok (b - 65 + 10)
    else panic

-- The loop over the places of the result, from place `i`, with `k` of them left.
unfoldable pub hex_from : (k i : ℕ) (bytes : List ℕ) → Exec Absent (List ℕ)
hex_from zero i bytes = ok []
hex_from (suc k) i bytes = do
  high_digit ← index bytes (i * 2)
  high ← hex_nibble high_digit
  low_digit ← index bytes (i * 2 + 1)
  low ← hex_nibble low_digit
  rest ← hex_from k (i + 1) bytes
  ok (bit_or (high * 16 % 256) low ∷ rest)

-- `hex_bytes_impl::<N>`, which `hex_bytes_16`, `hex_bytes_32` and `hex_bytes_33` call.
unfoldable pub hex_bytes : (n : ℕ) (text : List ℕ) → Exec Absent (List ℕ)
hex_bytes n text = if length text == n * 2 then hex_from n 0 text else panic

abbrev pub hex_digits : List ℕ
hex_digits = 48 ∷ 49 ∷ 50 ∷ 51 ∷ 52 ∷ 53 ∷ 54 ∷ 55 ∷ 56 ∷ 57 ∷ 97 ∷ 98 ∷ 99 ∷ 100 ∷ 101 ∷ 102 ∷ []

-- The loop over `src`, from place `i` on.
unfoldable pub encode_from : (i : ℕ) (src dst : List ℕ) → Exec Absent (List ℕ)
encode_from i [] dst = ok dst
encode_from i (b ∷ src) dst = do
  high ← index hex_digits (b / 2 ^ 4)
  dst ← store dst (i * 2) high
  low ← index hex_digits (bit_and b 0x0f)
  dst ← store dst (i * 2 + 1) low
  encode_from (i + 1) src dst

unfoldable pub hex_encode : (src dst : List ℕ) → Exec Absent (Bool × List ℕ)
hex_encode src dst =
    if ltb (length dst) (length src * 2)
    then ok (false, dst)
    else do dst' ← encode_from 0 src dst; ok (true, dst')
