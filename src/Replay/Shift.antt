-- ===== src/Replay/Shift.antt =====
-- The bit-wise part of `shift_bitmap` moves every digit up, and clears the digits below.
use microfips.Base.{ℕ, suc, ◌+◌, ◌-◌, ◌*◌, ◌/◌, ◌%◌, ◌^◌, ◌≤◌, ◌<◌, List, [], ◌∷◌}
use microfips.Base.{◌≡◌, ◌∙◌, sym, subst, arith, length, get_or}
use microfips.Base.{ltb, Bool-cases, inl, inr, ltb→le, lt→ltb}
use native.Mathlib.Decide.{dec_lt}
use native.Mathlib.Nat.{div-le_self, le_trans}
use Prim.Native.Nat.{suc-le-suc}
use microfips.Bits.{bit_or-lt}
use microfips.Bits.Shift.{bit-high_zero}
use microfips.Replay.{shift_words, move_by_bits}
use microfips.Replay.Digits.{bit_at, AllWords, word_below, word_below-lt, get_or-shift_words}
use microfips.Replay.Digits.{word-digit_low, word-digit_high}

-- A digit that stays in its word.
bit_at-shift_words_inside :
    (s : ℕ) (ws : List ℕ) (i : ℕ)
    → AllWords ws
    → i < 64 * length ws
    → s ≤ i % 64
    → bit_at (shift_words s 0 ws) i ≡ bit_at ws (i - s)
bit_at-shift_words_inside s ws i wide inside low =
    let word : (i - s) / 64 ≡ i / 64 = omega arith in
    let place : (i - s) % 64 ≡ i % 64 - s = omega arith in
    rw (get_or-shift_words s ws (i / 64) (omega arith), word, place)
      (word-digit_high s (get_or ws (i / 64) 0) (word_below 0 ws (i / 64)) (i % 64) low
        (omega arith) (word_below-lt ws (i / 64) wide))

-- A digit that comes out of the word below.
bit_at-shift_words_carried :
    (s : ℕ) (ws : List ℕ) (j b : ℕ)
    → s < 64
    → 64 * suc j + b < 64 * length ws
    → b < s
    → bit_at (shift_words s 0 ws) (64 * suc j + b) ≡ bit_at ws (64 * suc j + b - s)
bit_at-shift_words_carried s ws j b hs inside low =
    let word : (64 * suc j + b) / 64 ≡ suc j = omega arith in
    let place : (64 * suc j + b) % 64 ≡ b = omega arith in
    let word' : (64 * suc j + b - s) / 64 ≡ j = omega arith in
    let place' : (64 * suc j + b - s) % 64 ≡ 64 - s + b = omega arith in
    rw (word, place, word', place', get_or-shift_words s ws (suc j) (omega arith))
      (word-digit_low s (get_or ws (suc j) 0) (get_or ws j 0) b hs low)

bit_at-shift_words_low :
    (s : ℕ) (ws : List ℕ) (i : ℕ)
    → s < 64
    → 0 < length ws
    → i < s
    → bit_at (shift_words s 0 ws) i ≡ 0
bit_at-shift_words_low s ws i hs some_word low =
    let word : i / 64 ≡ 0 = omega arith in
    let place : i % 64 ≡ i = omega arith in
    rw (word, place, get_or-shift_words s ws 0 some_word)
      (word-digit_low s (get_or ws 0 0) 0 i hs low
        ∙ bit-high_zero 0 (64 - s + i) 0 (omega arith) (omega arith))

bit_at-shift_words :
    (s : ℕ) (ws : List ℕ) (i : ℕ)
    → AllWords ws
    → s < 64
    → i < 64 * length ws
    → s ≤ i
    → bit_at (shift_words s 0 ws) i ≡ bit_at ws (i - s)
bit_at-shift_words s ws i wide hs inside low = elim (dec_lt (i % 64) s) [
  | no stays ↦ bit_at-shift_words_inside s ws i wide inside (omega arith)
  | yes leaves ↦
      let whole : i ≡ 64 * suc (i / 64 - 1) + i % 64 = omega arith in
      subst (λ t. bit_at (shift_words s 0 ws) t ≡ bit_at ws (t - s)) (sym whole)
        (bit_at-shift_words_carried s ws (i / 64 - 1) (i % 64) hs (omega arith) leaves)
]

pub shift_words-AllWords :
    (s c : ℕ) (ws : List ℕ) → c < 2 ^ 64 → AllWords ws → AllWords (shift_words s c ws)
unfolding shift_words
shift_words-AllWords s c [] hc wide = tt
shift_words-AllWords s c (w ∷ ws) hc wide = (
  bit_or-lt 64 (w * 2 ^ s % 2 ^ 64) c (omega arith) hc,
  shift_words-AllWords s (w / 2 ^ (64 - s)) ws
      (le_trans (suc-le-suc (div-le_self w (2 ^ (64 - s)))) wide.0) wide.1,
)

-- The digits after the bit-wise part of the shift.
pub bit_at-move_by_bits :
    (s : ℕ) (ws : List ℕ) (i : ℕ)
    → AllWords ws
    → s < 64
    → i < 64 * length ws
    → s ≤ i
    → bit_at (move_by_bits s ws) i ≡ bit_at ws (i - s)
unfolding move_by_bits
bit_at-move_by_bits s ws i wide hs inside low = elim (Bool-cases (ltb 0 s)) [
  | inl moved ↦ rw moved (bit_at-shift_words s ws i wide hs inside low)
  | inr still ↦ let place : i - s ≡ i = omega (arith, ltb→le 0 s still) in rw (still, place)
]

pub bit_at-move_by_bits_low :
    (s : ℕ) (ws : List ℕ) (i : ℕ)
    → s < 64
    → 0 < length ws
    → i < s
    → bit_at (move_by_bits s ws) i ≡ 0
unfolding move_by_bits
bit_at-move_by_bits_low s ws i hs some_word low =
    rw (lt→ltb 0 s (omega arith)) (bit_at-shift_words_low s ws i hs some_word low)
