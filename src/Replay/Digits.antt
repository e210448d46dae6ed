-- ===== src/Replay/Digits.antt =====
-- What the shift loops of `shift_bitmap` do to each digit of the bitmap.
use microfips.Base.{ℕ, zero, suc, ◌+◌, ◌-◌, ◌*◌, ◌/◌, ◌%◌, ◌^◌, ◌≤◌, ◌<◌, bit_or, List, [], ◌∷◌}
use native.Mathlib.Decide.{dec_lt}
use native.Mathlib.Nat.{zero-div}
use microfips.Base.{
  ◌≡◌, ◌≢◌, refl, ap, ◌∙◌, lt→ltb, le→ltb, ltb→le, arith, length, get_or, set, replicate,
  length-set,
}
use microfips.Base.{ltb, if◌then◌else◌, Bool-cases, inl, inr}
use microfips.Bits.{bit, bit-bit_or}
use microfips.Bits.Shift.{bit-shr, bit-shl_low, bit-shl_high, bit-mod_low, bit-high_zero}
use microfips.Replay.{move_words, clear_words, shift_words, move_by_words}

-- Every word fits 64 bits.
abbrev pub AllWords : List ℕ → Type 0
AllWords [] = Unit
AllWords (w ∷ ws) = (w < 2 ^ 64) × AllWords ws

-- Digit `i` of the bitmap, 64 to a word.
abbrev pub bit_at : List ℕ → ℕ → ℕ
bit_at ws i = bit (get_or ws (i / 64) 0) (i % 64)

pub get_or-set_self : (ws : List ℕ) (i v : ℕ) → i < length ws → get_or (set ws i v) i 0 ≡ v
get_or-set_self [] i v h = absurd (omega arith)
get_or-set_self (w ∷ ws) zero v h = refl
get_or-set_self (w ∷ ws) (suc i) v h = get_or-set_self ws i v (omega arith)

pub get_or-set_ne : (ws : List ℕ) (i j v : ℕ) → i ≢ j → get_or (set ws i v) j 0 ≡ get_or ws j 0
get_or-set_ne [] i j v h = refl
get_or-set_ne (w ∷ ws) zero zero v h = absurd (h refl)
get_or-set_ne (w ∷ ws) zero (suc j) v h = refl
get_or-set_ne (w ∷ ws) (suc i) zero v h = refl
get_or-set_ne (w ∷ ws) (suc i) (suc j) v h = get_or-set_ne ws i j v (λ e. h (ap suc e))

pub get_or-lt : (ws : List ℕ) (i : ℕ) → AllWords ws → get_or ws i 0 < 2 ^ 64
get_or-lt [] i h = omega arith
get_or-lt (w ∷ ws) zero h = h.0
get_or-lt (w ∷ ws) (suc i) h = get_or-lt ws i h.1

pub get_or-replicate : (n i : ℕ) → get_or {A = ℕ} (replicate n 0) i 0 ≡ 0
get_or-replicate zero i = refl
get_or-replicate (suc n) zero = refl
get_or-replicate (suc n) (suc i) = get_or-replicate n i

pub length-move_words :
    (word_shift left : ℕ) (ws : List ℕ) → length (move_words word_shift left ws) ≡ length ws
unfolding move_words
length-move_words s zero ws = refl
length-move_words s (suc left) ws = omega (
  arith,
  length-move_words s left (set ws (s + left) (get_or ws left 0)),
  length-set ws (s + left) (get_or ws left 0),
)

get_or-move_words_above :
    (s left : ℕ) (ws : List ℕ) (j : ℕ)
    → s + left ≤ j
    → get_or (move_words s left ws) j 0 ≡ get_or ws j 0
unfolding move_words
get_or-move_words_above s zero ws j h = refl
get_or-move_words_above s (suc left) ws j h =
    get_or-move_words_above s left (set ws (s + left) (get_or ws left 0)) j (omega arith)
    ∙ get_or-set_ne ws (s + left) j (get_or ws left 0) (omega arith)

-- The loop runs downwards, so each word that it reads is still the old one.
get_or-move_words :
    (s left : ℕ) (ws : List ℕ) (j : ℕ)
    → s + left ≤ length ws
    → s ≤ j
    → j < s + left
    → get_or (move_words s left ws) j 0 ≡ get_or ws (j - s) 0
unfolding move_words
get_or-move_words s zero ws j fits low high = absurd (omega arith)
get_or-move_words s (suc left) ws j fits low high =
    let v = get_or ws left 0 in
    elim (dec_lt j (s + left)) [
      | yes below ↦
          get_or-move_words s left (set ws (s + left) v) j
            (omega (arith, length-set ws (s + left) v)) low below
          ∙ get_or-set_ne ws (s + left) (j - s) v (omega arith)
      | no last ↦
          let top : j ≡ s + left = omega arith in
          let source : s + left - s ≡ left = omega arith in
          rw (top, source)
            (get_or-move_words_above s left (set ws (s + left) v) (s + left) (omega arith)
              ∙ get_or-set_self ws (s + left) v (omega arith))
    ]

length-clear_words : (n : ℕ) (ws : List ℕ) → length (clear_words n ws) ≡ length ws
unfolding clear_words
length-clear_words zero ws = refl
length-clear_words (suc n) ws =
    omega (arith, length-clear_words n ws, length-set (clear_words n ws) n 0)

get_or-clear_words :
    (n : ℕ) (ws : List ℕ) (j : ℕ)
    → n ≤ length ws
    → get_or (clear_words n ws) j 0 ≡ (if ltb j n then 0 else get_or ws j 0)
unfolding clear_words
get_or-clear_words zero ws j h = ground arith
get_or-clear_words (suc n) ws j h = ground (
  arith,
  get_or-clear_words n ws j,
  length-clear_words n ws,
  get_or-set_self (clear_words n ws) n 0,
  get_or-set_ne (clear_words n ws) n j 0,
)

get_or-move_by_words_low :
    (s : ℕ) (ws : List ℕ) (j : ℕ) → s ≤ length ws → j < s → get_or (move_by_words s ws) j 0 ≡ 0
unfolding move_by_words
get_or-move_by_words_low s ws j fits low = rw (lt→ltb 0 s (omega arith)) (
    get_or-clear_words s (move_words s (length ws - s) ws) j (rw length-move_words fits)
    ∙ rw (lt→ltb j s low))

get_or-move_by_words :
    (s : ℕ) (ws : List ℕ) (j : ℕ)
    → s ≤ j
    → j < length ws
    → get_or (move_by_words s ws) j 0 ≡ get_or ws (j - s) 0
unfolding move_by_words
get_or-move_by_words s ws j low high = elim (Bool-cases (ltb 0 s)) [
  | inl moved ↦ rw moved (
      get_or-clear_words s (move_words s (length ws - s) ws) j (rw length-move_words (omega arith))
      ∙ rw (le→ltb j s low)
          (get_or-move_words s (length ws - s) ws j (omega arith) low (omega arith)))
  | inr still ↦ let place : j - s ≡ j = omega (arith, ltb→le 0 s still) in rw (still, place)
]

pub length-move_by_words : (s : ℕ) (ws : List ℕ) → length (move_by_words s ws) ≡ length ws
unfolding move_by_words
length-move_by_words s ws = ground (
  arith,
  length-clear_words s (move_words s (length ws - s) ws),
  length-move_words s (length ws - s) ws,
)

-- After a move by whole words, the digits stand `64 * s` places higher.
pub bit_at-move_by_words :
    (s : ℕ) (ws : List ℕ) (i : ℕ)
    → 64 * s ≤ i
    → i < 64 * length ws
    → bit_at (move_by_words s ws) i ≡ bit_at ws (i - 64 * s)
bit_at-move_by_words s ws i low high =
    let word : i / 64 - s ≡ (i - 64 * s) / 64 = omega arith in
    let place : i % 64 ≡ (i - 64 * s) % 64 = omega arith in
    rw (get_or-move_by_words s ws (i / 64) (omega arith) (omega arith), word, place)

pub bit_at-move_by_words_low :
    (s : ℕ) (ws : List ℕ) (i : ℕ) → s ≤ length ws → i < 64 * s → bit_at (move_by_words s ws) i ≡ 0
bit_at-move_by_words_low s ws i fits low =
    rw (get_or-move_by_words_low s ws (i / 64) fits (omega arith))
      (bit-high_zero 0 (i % 64) 0 (omega arith) (omega arith))

-- The digits of one word after a shift by `s`, with the high digits of the word below.
pub word-digit_low :
    (s w v b : ℕ)
    → s < 64
    → b < s
    → bit (bit_or (w * 2 ^ s % 2 ^ 64) (v / 2 ^ (64 - s))) b ≡ bit v (64 - s + b)
word-digit_low s w v b hs low = omega (
  arith,
  bit-bit_or b (w * 2 ^ s % 2 ^ 64) (v / 2 ^ (64 - s)),
  bit-mod_low 64 b (w * 2 ^ s) (omega arith),
  bit-shl_low s b w low,
  bit-shr (64 - s) b v,
)

pub word-digit_high :
    (s w v b : ℕ)
    → s ≤ b
    → b < 64
    → v < 2 ^ 64
    → bit (bit_or (w * 2 ^ s % 2 ^ 64) (v / 2 ^ (64 - s))) b ≡ bit w (b - s)
word-digit_high s w v b low hb hv = omega (
  arith,
  bit-bit_or b (w * 2 ^ s % 2 ^ 64) (v / 2 ^ (64 - s)),
  bit-mod_low 64 b (w * 2 ^ s) hb,
  bit-shl_high s b w low,
  bit-shr (64 - s) b v,
  bit-high_zero 64 (64 - s + b) v hv (omega arith),
)

-- The word whose high digits are carried into word `j`.
abbrev pub word_below : ℕ → List ℕ → ℕ → ℕ
word_below carry ws zero = carry
word_below carry ws (suc j) = get_or ws j 0

get_or-shift_words_above :
    (s c : ℕ) (ws : List ℕ) (j : ℕ)
    → suc j < length ws
    → get_or (shift_words s c ws) (suc j) 0
      ≡ bit_or (get_or ws (suc j) 0 * 2 ^ s % 2 ^ 64) (get_or ws j 0 / 2 ^ (64 - s))
unfolding shift_words
get_or-shift_words_above s c [] j h = absurd (omega arith)
get_or-shift_words_above s c (w ∷ []) j h = absurd (omega arith)
get_or-shift_words_above s c (w ∷ v ∷ ws) zero h = refl
get_or-shift_words_above s c (w ∷ v ∷ ws) (suc j) h =
    get_or-shift_words_above s (w / 2 ^ (64 - s)) (v ∷ ws) j (omega arith)

pub get_or-shift_words :
    (s : ℕ) (ws : List ℕ) (j : ℕ)
    → j < length ws
    → get_or (shift_words s 0 ws) j 0
      ≡ bit_or (get_or ws j 0 * 2 ^ s % 2 ^ 64) (word_below 0 ws j / 2 ^ (64 - s))
unfolding shift_words
get_or-shift_words s [] j h = absurd (omega arith)
get_or-shift_words s (w ∷ ws) zero h = rw zero-div
get_or-shift_words s (w ∷ ws) (suc j) h = get_or-shift_words_above s 0 (w ∷ ws) j h

pub word_below-lt : (ws : List ℕ) (j : ℕ) → AllWords ws → word_below 0 ws j < 2 ^ 64
word_below-lt ws zero h = omega arith
word_below-lt ws (suc j) h = get_or-lt ws j h

pub length-shift_words : (s c : ℕ) (ws : List ℕ) → length (shift_words s c ws) ≡ length ws
unfolding shift_words
length-shift_words s c [] = refl
length-shift_words s c (w ∷ ws) = ap suc (length-shift_words s (w / 2 ^ (64 - s)) ws)
