-- ===== src/Replay/Window.antt =====
-- `check` implements the history specification, while the age of a counter fits a `usize`.
use native.Mathlib.Nat.{mod-eq_of_lt, one-le-pow}
use native.Mathlib.Decide.{dec_lt}
use microfips.Base.{ℕ, ◌+◌, ◌-◌, ◌^◌, ◌≤◌, ◌<◌, List, [], ◌≡◌, refl, arith}
use microfips.Base.{ap, ◌∙◌, ltb, ◌==◌, Bool, true, false, not, Bool-cases, inl, inr}
use microfips.Exec.{ok}
use microfips.Replay.{ReplayWindow, window_size, as_usize, check}
use microfips.Replay.{is_unseen, new}
use microfips.Replay.Digits.{bit_at}
use microfips.Replay.Bitmap.{IsBitmap, cleared-IsBitmap}
use microfips.Replay.Bitmap.{bit_at-cleared}
use microfips.Replay.Mark.{is_unseen_lem}
use microfips.Replay.Spec.{contains, highest_of, acceptable, contains_above}

abbrev pub digit_of : Bool → ℕ
digit_of true = 1
digit_of false = 0

-- The window stands for the history `h`: its top is the highest counter, and each digit says
-- whether the counter of that place was accepted.
pub record Represents (w : ReplayWindow) (h : List ℕ) : Type 0 where
  pub top : w.highest ≡ highest_of h
  pub bits : IsBitmap w.bitmap
  pub seen :
      (i : ℕ)
      → i < window_size
      → i ≤ w.highest
      → bit_at w.bitmap i ≡ digit_of (contains h (w.highest - i))

digit-zero : (b : Bool) → (digit_of b == 0) ≡ not b
digit-zero true = refl
digit-zero false = refl

module _ (width : ℕ) {w : ReplayWindow} {h : List ℕ} (c : ℕ) (r : Represents w h)
    (fits : w.highest < c + 2 ^ width) where
  -- A counter that is not above the top is looked up at its place, if that is in the window.
  is_unseen_refines :
      c ≤ w.highest
      → w.highest - c < window_size
      → is_unseen w.bitmap (w.highest - c) ≡ ok (not (contains h c))
  is_unseen_refines below recent =
      let back : w.highest - (w.highest - c) ≡ c = omega arith in
      is_unseen_lem r.bits (w.highest - c) recent
      ∙ rw (r.seen (w.highest - c) recent (omega arith), back) (ap ok (digit-zero (contains h c)))

  no_wrap : as_usize width (w.highest - c) ≡ w.highest - c
  no_wrap = mod-eq_of_lt (omega (arith, one-le-pow width 2 (omega arith)))

  -- On a history that the window stands for, and a counter less than `2 ^ width` older than the
  -- highest one, `check` does not panic, and its answer is the specification's.
  pub check_refines : check width w c ≡ ok (acceptable h c)
  unfolding check
  check_refines = elim (Bool-cases (ltb w.highest c)) [
    | inl above ↦ ground (arith, contains_above h c, r.top)
    | inr below ↦ elim (dec_lt (w.highest - c) window_size) [
      | yes recent ↦ ground (arith, no_wrap, is_unseen_refines, r.top)
      | no old ↦ ground (arith, no_wrap, r.top)
    ]
  ]

-- A new window stands for the empty history.
pub new-Represents : Represents new []
unfolding new
new-Represents = record {
  top = refl;
  bits = cleared-IsBitmap;
  seen = λ i inside le. bit_at-cleared i;
}
