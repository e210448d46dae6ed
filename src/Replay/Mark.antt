-- ===== src/Replay/Mark.antt =====
-- Setting one digit of the bitmap, and testing one.
use native.Mathlib.Nat.{pow-le-pow_right, one-le-pow}
use native.Mathlib.Decide.{ℕ_discrete}
use microfips.Base.{ℕ, zero, suc, ◌*◌, ◌/◌, ◌%◌, ◌^◌, ◌≤◌, ◌<◌, List, bit_or, ◌≡◌, ◌≢◌}
use microfips.Base.{arith, ap, length, get_or, set, lt→ltb, ◌==◌}
use microfips.Exec.{ok}
use microfips.Bits.{bit, bit-bit_or, bit_and-pow, bit-le-one, bit_or-lt}
use microfips.Bits.Shift.{bit-pow_self, bit-pow_ne}
use microfips.Replay.{window_size, is_unseen, mark}
use microfips.Replay.Digits.{bit_at, get_or-set_self, get_or-set_ne, get_or-lt}
use microfips.Replay.Bitmap.{IsBitmap, set-IsBitmap}

-- The bitmap with digit `d` set.
abbrev pub marked : List ℕ → ℕ → List ℕ
marked ws d = set ws (d / 64) (bit_or (get_or ws (d / 64) 0) (2 ^ (d % 64)))

pow-lt : (b : ℕ) → b < 64 → 2 ^ b < 2 ^ 64
pow-lt b h = omega (arith, pow-le-pow_right {n = 2} (omega arith) {i = b} {j = 63} (omega arith))

-- A digit at its place is zero exactly when the digit is.
zero_at_place : (x p : ℕ) → x ≤ 1 → 1 ≤ p → (x * p == 0) ≡ (x == 0)
zero_at_place zero p hx hp = let none : 0 * p ≡ 0 = omega arith in rw none
zero_at_place (suc zero) p hx hp = let whole : 1 * p ≡ p = omega arith in rw whole (ground arith)
zero_at_place (suc (suc x)) p hx hp = absurd (omega arith)

module _ {ws : List ℕ} (b : IsBitmap ws) (d : ℕ) (inside : d < window_size) where
  in_bounds : d / 64 < length ws
  in_bounds = omega (arith, b.size)

  pub mark_lem : mark ws d ≡ ok (marked ws d)
  unfolding mark
  mark_lem = rw (lt→ltb (d / 64) (length ws) in_bounds)

  pub is_unseen_lem : is_unseen ws d ≡ ok (bit_at ws d == 0)
  unfolding is_unseen
  is_unseen_lem =
      rw (lt→ltb (d / 64) (length ws) in_bounds, bit_and-pow (d % 64) (get_or ws (d / 64) 0))
        (ap ok (
          zero_at_place (bit_at ws d) (2 ^ (d % 64)) (bit-le-one (d % 64) (get_or ws (d / 64) 0))
            (one-le-pow (d % 64) 2 (omega arith))))

  pub marked-IsBitmap : IsBitmap (marked ws d)
  marked-IsBitmap = set-IsBitmap (d / 64) (bit_or (get_or ws (d / 64) 0) (2 ^ (d % 64))) b (
      bit_or-lt 64 (get_or ws (d / 64) 0) (2 ^ (d % 64)) (get_or-lt ws (d / 64) b.wide)
        (pow-lt (d % 64) (omega arith)))

  pub bit_at-marked_self : bit_at (marked ws d) d ≡ 1
  bit_at-marked_self =
      rw (get_or-set_self ws (d / 64) (bit_or (get_or ws (d / 64) 0) (2 ^ (d % 64))) in_bounds) (
        omega (
          arith,
          bit-bit_or (d % 64) (get_or ws (d / 64) 0) (2 ^ (d % 64)),
          bit-pow_self (d % 64),
          bit-le-one (d % 64) (get_or ws (d / 64) 0),
        ))

  pub bit_at-marked_ne : (i : ℕ) → i ≢ d → bit_at (marked ws d) i ≡ bit_at ws i
  bit_at-marked_ne i ne = elim (ℕ_discrete (d / 64) (i / 64)) [
    | no other ↦
        ap (λ w. bit w (i % 64))
          (get_or-set_ne ws (d / 64) (i / 64) (bit_or (get_or ws (d / 64) 0) (2 ^ (d % 64))) other)
    | yes same ↦
        rw
          (
            ← same,
            get_or-set_self ws (d / 64) (bit_or (get_or ws (d / 64) 0) (2 ^ (d % 64))) in_bounds,
          )
          (omega (
            arith,
            bit-bit_or (i % 64) (get_or ws (d / 64) 0) (2 ^ (d % 64)),
            bit-pow_ne (d % 64) (i % 64) (λ e. ne (omega arith)),
          ))
  ]
