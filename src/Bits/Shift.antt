-- ===== src/Bits/Shift.antt =====
-- The digits of shifted and truncated words.
use native.Mathlib.Nat.{pow-suc, div-div-eq-div-mul}
use microfips.Base.{
  ℕ, zero, suc, ◌+◌, ◌-◌, ◌*◌, ◌/◌, ◌%◌, ◌^◌, ◌≤◌, ◌<◌, ◌≡◌, ◌≢◌, refl, ap, ◌∙◌, arith,
}
use microfips.Bits.Native.{bit, mod_double}

-- `n >> k` moves every digit down by `k`.
pub bit-shr : (k i n : ℕ) → bit (n / 2 ^ k) i ≡ bit n (k + i)
bit-shr zero i n =
    let whole : n / 2 ^ 0 ≡ n = omega arith in
    let place : 0 + i ≡ i = omega arith in rw (whole, place)
bit-shr (suc k) i n =
    let twice : 2 * 2 ^ k ≡ 2 ^ suc k = omega (arith, pow-suc 2 k) in
    let halved : n / 2 / 2 ^ k ≡ n / 2 ^ suc k =
      div-div-eq-div-mul n 2 (2 ^ k) ∙ ap (λ (t : ℕ). n / t) twice in
    let place : suc k + i ≡ suc (k + i) = omega arith in rw (← halved, place) (bit-shr k i (n / 2))

-- `n << k` moves every digit up by `k`.
pub bit-shl_low : (k i n : ℕ) → i < k → bit (n * 2 ^ k) i ≡ 0
bit-shl_low zero i n h = absurd (omega arith)
bit-shl_low (suc k) zero n h = omega (arith, ap (λ (t : ℕ). n * t) (pow-suc 2 k))
bit-shl_low (suc k) (suc i) n h =
    let half : n * 2 ^ suc k / 2 ≡ n * 2 ^ k = omega (arith, ap (λ (t : ℕ). n * t) (pow-suc 2 k)) in
    rw half (bit-shl_low k i n (omega arith))

pub bit-shl_high : (k i n : ℕ) → k ≤ i → bit (n * 2 ^ k) i ≡ bit n (i - k)
bit-shl_high zero i n h =
    let whole : n * 2 ^ 0 ≡ n = omega arith in
    let place : i - 0 ≡ i = omega arith in rw (whole, place)
bit-shl_high (suc k) zero n h = absurd (omega arith)
bit-shl_high (suc k) (suc i) n h =
    let half : n * 2 ^ suc k / 2 ≡ n * 2 ^ k = omega (arith, ap (λ (t : ℕ). n * t) (pow-suc 2 k)) in
    let same : suc i - suc k ≡ i - k = omega arith in
    rw (half, same) (bit-shl_high k i n (omega arith))

-- Truncation keeps the digits below the width.
pub bit-mod_low : (k i n : ℕ) → i < k → bit (n % 2 ^ k) i ≡ bit n i
bit-mod_low zero i n h = absurd (omega arith)
bit-mod_low (suc k) zero n h = omega (arith, mod_double n k)
bit-mod_low (suc k) (suc i) n h =
    let half : n % 2 ^ suc k / 2 ≡ n / 2 % 2 ^ k = omega (arith, mod_double n k) in
    rw half (bit-mod_low k i (n / 2) (omega arith))

-- A number below `2 ^ k` has no digit at `k` or above.
pub bit-high_zero : (k i n : ℕ) → n < 2 ^ k → k ≤ i → bit n i ≡ 0
bit-high_zero zero zero n h le = omega arith
bit-high_zero zero (suc i) n h le = bit-high_zero zero i (n / 2) (omega arith) (omega arith)
bit-high_zero (suc k) zero n h le = absurd (omega arith)
bit-high_zero (suc k) (suc i) n h le =
    bit-high_zero k i (n / 2) (omega (arith, pow-suc 2 k)) (omega arith)

-- The digits of `2 ^ k`.
pub bit-pow_self : (k : ℕ) → bit (2 ^ k) k ≡ 1
bit-pow_self zero = refl
bit-pow_self (suc k) =
    let half : 2 ^ suc k / 2 ≡ 2 ^ k = omega (arith, pow-suc 2 k) in rw half (bit-pow_self k)

pub bit-pow_ne : (k i : ℕ) → i ≢ k → bit (2 ^ k) i ≡ 0
bit-pow_ne zero zero h = absurd (h refl)
bit-pow_ne zero (suc i) h = bit-high_zero 0 i 0 (omega arith) (omega arith)
bit-pow_ne (suc k) zero h = omega (arith, pow-suc 2 k)
bit-pow_ne (suc k) (suc i) h =
    let half : 2 ^ suc k / 2 ≡ 2 ^ k = omega (arith, pow-suc 2 k) in
    rw half (bit-pow_ne k i (λ e. h (ap suc e)))
