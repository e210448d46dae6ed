-- ===== src/Replay/Bitmap.antt =====
-- `shift_bitmap` moves every digit of the bitmap up by `shift`, and clears the digits below.
use native.Mathlib.Decide.{dec_lt}
use microfips.Base.{ℕ, zero, suc, ◌+◌, ◌-◌, ◌*◌, ◌/◌, ◌%◌, ◌^◌, ◌≤◌, ◌<◌, List, [], ◌∷◌}
use microfips.Base.{◌≡◌, refl, ◌∙◌, ap, arith, length, get_or, replicate, set, length-set}
use microfips.Base.{ltb, Bool-cases, inl, inr, lt→leb}
use microfips.Replay.{move_words, clear_words, move_by_words, move_by_bits}
use microfips.Replay.{shift_bitmap, words, window_size}
use microfips.Replay.Digits.{bit_at, AllWords, get_or-lt}
use microfips.Replay.Digits.{length-move_by_words, bit_at-move_by_words, bit_at-move_by_words_low}
use microfips.Bits.Shift.{bit-high_zero}
use microfips.Replay.Digits.{length-shift_words, get_or-replicate}
use microfips.Replay.Shift.{bit_at-move_by_bits, bit_at-move_by_bits_low, shift_words-AllWords}

-- What a bitmap of the window keeps: its size, and that its words are words.
pub record IsBitmap (ws : List ℕ) : Type 0 where
  pub size : length ws ≡ words
  pub wide : AllWords ws

replicate-AllWords : (n : ℕ) → AllWords (replicate n 0)
replicate-AllWords zero = tt
replicate-AllWords (suc n) = (omega arith, replicate-AllWords n)

pub cleared-IsBitmap : IsBitmap (replicate words 0)
cleared-IsBitmap = record { size = refl; wide = replicate-AllWords words }

pub bit_at-cleared : (i : ℕ) → bit_at (replicate words 0) i ≡ 0
bit_at-cleared i = rw get_or-replicate (bit-high_zero 0 (i % 64) 0 (omega arith) (omega arith))

set-AllWords : (ws : List ℕ) (i v : ℕ) → AllWords ws → v < 2 ^ 64 → AllWords (set ws i v)
set-AllWords [] i v wide hv = tt
set-AllWords (w ∷ ws) zero v wide hv = (hv, wide.1)
set-AllWords (w ∷ ws) (suc i) v wide hv = (wide.0, set-AllWords ws i v wide.1 hv)

pub set-IsBitmap : {ws : List ℕ} (i v : ℕ) → IsBitmap ws → v < 2 ^ 64 → IsBitmap (set ws i v)
set-IsBitmap {ws} i v b hv = record {
  size = length-set ws i v ∙ b.size;
  wide = set-AllWords ws i v b.wide hv;
}

move_words-AllWords : (s left : ℕ) (ws : List ℕ) → AllWords ws → AllWords (move_words s left ws)
unfolding move_words
move_words-AllWords s zero ws wide = wide
move_words-AllWords s (suc left) ws wide =
    move_words-AllWords s left (set ws (s + left) (get_or ws left 0))
      (set-AllWords ws (s + left) (get_or ws left 0) wide (get_or-lt ws left wide))

clear_words-AllWords : (n : ℕ) (ws : List ℕ) → AllWords ws → AllWords (clear_words n ws)
unfolding clear_words
clear_words-AllWords zero ws wide = wide
clear_words-AllWords (suc n) ws wide =
    set-AllWords (clear_words n ws) n 0 (clear_words-AllWords n ws wide) (omega arith)

move_by_words-AllWords : (s : ℕ) (ws : List ℕ) → AllWords ws → AllWords (move_by_words s ws)
unfolding move_by_words
move_by_words-AllWords s ws wide = elim (Bool-cases (ltb 0 s)) [
  | inl moved ↦ rw moved (clear_words-AllWords s _ (move_words-AllWords s (length ws - s) ws wide))
  | inr still ↦ rw still wide
]

shift_bitmap_small :
    (s : ℕ) (ws : List ℕ)
    → s < window_size
    → shift_bitmap s ws ≡ move_by_bits (s % 64) (move_by_words (s / 64) ws)
unfolding shift_bitmap
shift_bitmap_small s ws h = rw (lt→leb window_size s h)

move_by_bits-IsBitmap : (s : ℕ) {ws : List ℕ} → IsBitmap ws → IsBitmap (move_by_bits s ws)
unfolding move_by_bits
move_by_bits-IsBitmap s {ws} b = elim (Bool-cases (ltb 0 s)) [
  | inl moved ↦ rw moved (record {
    size = length-shift_words s 0 ws ∙ b.size;
    wide = shift_words-AllWords s 0 ws (omega arith) b.wide;
  })
  | inr still ↦ rw still b
]

move_by_words-IsBitmap : (s : ℕ) {ws : List ℕ} → IsBitmap ws → IsBitmap (move_by_words s ws)
move_by_words-IsBitmap s {ws} b = record {
  size = length-move_by_words s ws ∙ b.size;
  wide = move_by_words-AllWords s ws b.wide;
}

-- The shift keeps a bitmap a bitmap.
pub shift_bitmap-IsBitmap :
    (s : ℕ) {ws : List ℕ} → s < window_size → IsBitmap ws → IsBitmap (shift_bitmap s ws)
shift_bitmap-IsBitmap s {ws} h b =
    rw (shift_bitmap_small s ws h)
      (move_by_bits-IsBitmap (s % 64) (move_by_words-IsBitmap (s / 64) b))

-- After a shift of a bitmap by less than the window, the digit at a place of the window that is not
-- below the shift is the digit that stood the shift below it.
pub bit_at-shift_bitmap :
    (s : ℕ) {ws : List ℕ} (i : ℕ)
    → IsBitmap ws
    → s < window_size
    → i < window_size
    → s ≤ i
    → bit_at (shift_bitmap s ws) i ≡ bit_at ws (i - s)
bit_at-shift_bitmap s {ws} i b hs hi low =
    let moved = move_by_words-IsBitmap (s / 64) b in
    let total : i - s % 64 - 64 * (s / 64) ≡ i - s = omega arith in
    rw (shift_bitmap_small s ws hs) (
      bit_at-move_by_bits (s % 64) (move_by_words (s / 64) ws) i moved.wide (omega arith)
        (omega (arith, moved.size)) (omega arith)
      ∙ bit_at-move_by_words (s / 64) ws (i - s % 64) (omega arith) (omega (arith, b.size))
      ∙ ap (bit_at ws) total)

-- The places below hold the counters that were skipped, and are clear.
pub bit_at-shift_bitmap_low :
    (s : ℕ) {ws : List ℕ} (i : ℕ)
    → IsBitmap ws
    → s < window_size
    → i < s
    → bit_at (shift_bitmap s ws) i ≡ 0
bit_at-shift_bitmap_low s {ws} i b hs low =
    let moved = move_by_words-IsBitmap (s / 64) b in
    rw (shift_bitmap_small s ws hs) (elim (dec_lt i (s % 64)) [
      | yes inside ↦
          bit_at-move_by_bits_low (s % 64) (move_by_words (s / 64) ws) i (omega arith)
            (omega (arith, moved.size)) inside
      | no above ↦
          bit_at-move_by_bits (s % 64) (move_by_words (s / 64) ws) i moved.wide (omega arith)
            (omega (arith, moved.size)) (omega arith)
          ∙ bit_at-move_by_words_low (s / 64) ws (i - s % 64) (omega (arith, b.size)) (omega arith)
    ])
