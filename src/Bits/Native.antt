-- ===== src/Bits/Native.antt =====
-- The native `bit_and` and `bit_or` digit by digit. The library gives them by a recursion that
-- carries fuel; `peel` says that the fuel does not matter, so each has one law for its last digit.
use Prim.Native.Nat.{digits, bit_and-bitwise, bit_or-bitwise}
use native.Mathlib.Nat.{
  pow-suc, one-le-pow, div-add-mod', mod-lt, mod-eq_of_lt, mul-add-mod_self_right,
}
use microfips.Base.{ℕ, zero, suc, ◌+◌, ◌-◌, ◌*◌, ◌/◌, ◌%◌, ◌^◌, ◌≤◌, ◌<◌, min, max, bit_and, bit_or}
use microfips.Base.{◌≡◌, refl, ap, ◌∙◌, arith}

-- Digit `i` of `n`, the lowest first.
abbrev pub bit : ℕ → ℕ → ℕ
bit n zero = n % 2
bit n (suc i) = bit (n / 2) i

module _ (base : ℕ → ℕ) (op : ℕ → ℕ → ℕ) where
  peel : (f g a b : ℕ) → a ≤ f → a ≤ g → digits base op f a b ≡ digits base op g a b
  peel zero zero a b p q = refl
  peel zero (suc g) zero b p q = refl
  peel zero (suc g) (suc a) b p q = absurd (omega arith)
  peel (suc f) zero zero b p q = refl
  peel (suc f) zero (suc a) b p q = absurd (omega arith)
  peel (suc f) (suc g) zero b p q = refl
  peel (suc f) (suc g) (suc a) b p q = rw (peel f g (suc a / 2) (b / 2) (omega arith) (omega arith))

bit_or_last : (a b : ℕ) → bit_or a b ≡ bit_or (a / 2) (b / 2) * 2 + max (a % 2) (b % 2)
bit_or_last zero b = simp bit_or-bitwise (omega arith)
bit_or_last (suc a) b =
    simp bit_or-bitwise (
      omega
        (arith, peel (λ y. y) max a (suc a / 2) (suc a / 2) (b / 2) (omega arith) (omega arith)))

bit_and_last : (a b : ℕ) → bit_and a b ≡ bit_and (a / 2) (b / 2) * 2 + min (a % 2) (b % 2)
bit_and_last zero b = simp bit_and-bitwise (omega arith)
bit_and_last (suc a) b =
    simp bit_and-bitwise (
      omega
        (arith, peel (λ y. 0) min a (suc a / 2) (suc a / 2) (b / 2) (omega arith) (omega arith)))

pub bit-bit_or : (i a b : ℕ) → bit (bit_or a b) i ≡ max (bit a i) (bit b i)
bit-bit_or zero a b = omega (arith, bit_or_last a b)
bit-bit_or (suc i) a b =
    let half : bit_or a b / 2 ≡ bit_or (a / 2) (b / 2) = omega (arith, bit_or_last a b) in
    rw half (bit-bit_or i (a / 2) (b / 2))

pub bit-bit_and : (i a b : ℕ) → bit (bit_and a b) i ≡ min (bit a i) (bit b i)
bit-bit_and zero a b = omega (arith, bit_and_last a b)
bit-bit_and (suc i) a b =
    let half : bit_and a b / 2 ≡ bit_and (a / 2) (b / 2) = omega (arith, bit_and_last a b) in
    rw half (bit-bit_and i (a / 2) (b / 2))

pub bit-le-one : (i n : ℕ) → bit n i ≤ 1
bit-le-one zero n = omega arith
bit-le-one (suc i) n = bit-le-one i (n / 2)

bit_or-zero : (f a : ℕ) → a ≤ f → bit_or a 0 ≡ a
bit_or-zero f zero h = refl
bit_or-zero zero (suc a) h = absurd (omega arith)
bit_or-zero (suc f) (suc a) h =
    omega (arith, bit_or_last (suc a) 0, bit_or-zero f (suc a / 2) (omega arith))

bit_and-zero : (f a : ℕ) → a ≤ f → bit_and a 0 ≡ 0
bit_and-zero f zero h = refl
bit_and-zero zero (suc a) h = absurd (omega arith)
bit_and-zero (suc f) (suc a) h =
    omega (arith, bit_and_last (suc a) 0, bit_and-zero f (suc a / 2) (omega arith))

pub bit_or-lt : (k a b : ℕ) → a < 2 ^ k → b < 2 ^ k → bit_or a b < 2 ^ k
bit_or-lt zero a b ha hb =
    let no_digit : a ≡ 0 = omega arith in rw no_digit (omega (arith, bit_or-bitwise 0 b))
bit_or-lt (suc k) a b ha hb = omega (
  arith,
  pow-suc 2 k,
  bit_or_last a b,
  bit_or-lt k (a / 2) (b / 2) (omega (arith, pow-suc 2 k)) (omega (arith, pow-suc 2 k)),
)

-- `n & (1 << i)` is the digit at its place.
pub bit_and-pow : (i n : ℕ) → bit_and n (2 ^ i) ≡ bit n i * 2 ^ i
bit_and-pow zero n = omega (arith, bit_and_last n 1, bit_and-zero (n / 2) (n / 2) (omega arith))
bit_and-pow (suc i) n =
    let even : 2 ^ suc i ≡ 2 ^ i * 2 = pow-suc 2 i in
    let half : 2 ^ suc i / 2 ≡ 2 ^ i = omega arith in
    omega (
      arith,
      bit_and_last n (2 ^ suc i),
      ap (bit_and (n / 2)) half,
      bit_and-pow i (n / 2),
      ap (λ (t : ℕ). bit n (suc i) * t) even,
    )

-- Two fields that do not overlap: `(q << k) | r` is a sum.
pub bit_or-fields : (k q r : ℕ) → r < 2 ^ k → bit_or (q * 2 ^ k) r ≡ q * 2 ^ k + r
bit_or-fields zero q r h =
    let none_low : r ≡ 0 = omega arith in
    rw none_low (omega (arith, bit_or-zero (q * 1) (q * 1) (omega arith)))
bit_or-fields (suc k) q r h =
    let even : q * 2 ^ suc k ≡ q * 2 ^ k * 2 = omega (arith, ap (λ (t : ℕ). q * t) (pow-suc 2 k)) in
    let half : q * 2 ^ suc k / 2 ≡ q * 2 ^ k = omega arith in
    omega (
      arith,
      bit_or_last (q * 2 ^ suc k) r,
      ap (λ (t : ℕ). bit_or t (r / 2)) half,
      bit_or-fields k q (r / 2) (omega (arith, pow-suc 2 k)),
    )

-- The same with the low field first.
pub bit_or_high : (k q r : ℕ) → r < 2 ^ k → bit_or r (q * 2 ^ k) ≡ q * 2 ^ k + r
bit_or_high zero q r h =
    let none_low : r ≡ 0 = omega arith in rw none_low (omega (arith, bit_or-bitwise 0 (q * 1)))
bit_or_high (suc k) q r h =
    let even : q * 2 ^ suc k ≡ q * 2 ^ k * 2 = omega (arith, ap (λ (t : ℕ). q * t) (pow-suc 2 k)) in
    let half : q * 2 ^ suc k / 2 ≡ q * 2 ^ k = omega arith in
    omega (
      arith,
      bit_or_last r (q * 2 ^ suc k),
      ap (λ (t : ℕ). bit_or (r / 2) t) half,
      bit_or_high k q (r / 2) (omega (arith, pow-suc 2 k)),
    )

pub mod_double : (n k : ℕ) → n % 2 ^ suc k ≡ n / 2 % 2 ^ k * 2 + n % 2
mod_double n k =
    let low = n / 2 % 2 ^ k in
    let high = n / 2 / 2 ^ k in
    let parts : n ≡ high * 2 ^ suc k + (low * 2 + n % 2) =
      omega (arith, div-add-mod' (n / 2) (2 ^ k), ap (λ (t : ℕ). high * t) (pow-suc 2 k)) in
    let room : low < 2 ^ k = mod-lt (n / 2) (one-le-pow k 2 (omega arith)) in
    ap (λ (t : ℕ). t % 2 ^ suc k) parts
    ∙ mul-add-mod_self_right high (2 ^ suc k) (low * 2 + n % 2)
    ∙ mod-eq_of_lt (omega (arith, pow-suc 2 k))

-- A mask of `k` low digits is the remainder by `2 ^ k`.
pub bit_and_mask : (k n : ℕ) → bit_and n (2 ^ k - 1) ≡ n % 2 ^ k
bit_and_mask zero n = omega (arith, bit_and-zero n n (omega arith))
bit_and_mask (suc k) n =
    let even : 2 ^ suc k ≡ 2 ^ k * 2 = pow-suc 2 k in
    let pos : 1 ≤ 2 ^ k = one-le-pow k 2 (omega arith) in
    let half : (2 ^ suc k - 1) / 2 ≡ 2 ^ k - 1 = omega arith in
    omega (
      arith,
      bit_and_last n (2 ^ suc k - 1),
      ap (bit_and (n / 2)) half,
      bit_and_mask k (n / 2),
      mod_double n k,
    )
