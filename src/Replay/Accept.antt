-- ===== src/Replay/Accept.antt =====
-- `accept` adds the counter to the history that the window stands for.
use native.Mathlib.Nat.{mod-eq_of_lt}
use native.Mathlib.Decide.{dec_lt, ℕ_discrete}
use microfips.Base.{ℕ, ◌+◌, ◌-◌, ◌^◌, ◌≤◌, ◌<◌, List, ◌∷◌, ◌≡◌, ◌≢◌, arith}
use microfips.Base.{◌∙◌, leb, true, if◌then◌else◌}
use microfips.Base.{lt→ltb, le→ltb, le→leb, lt→leb, replicate}
use microfips.Exec.{ok}
use microfips.Replay.{ReplayWindow, window_size, words, shift_bitmap, as_usize, accept}
use microfips.Replay.{advance, fill_in}
use microfips.Replay.Digits.{bit_at}
use microfips.Replay.Bitmap.{IsBitmap, cleared-IsBitmap, shift_bitmap-IsBitmap}
use microfips.Replay.Bitmap.{bit_at-shift_bitmap, bit_at-shift_bitmap_low, bit_at-cleared}
use microfips.Replay.Mark.{marked, mark_lem, marked-IsBitmap, bit_at-marked_self}
use microfips.Replay.Mark.{bit_at-marked_ne}
use microfips.Replay.Spec.{contains, acceptable, contains_above, contains-cons_self}
use microfips.Replay.Spec.{contains-cons_ne}
use microfips.Replay.Window.{Represents, digit_of}

-- The bitmap of `advance` before the new counter is marked.
abbrev moved : List ℕ → ℕ → List ℕ
moved ws shift = if leb window_size shift then replicate words 0 else shift_bitmap shift ws

moved-IsBitmap : (ws : List ℕ) (shift : ℕ) → IsBitmap ws → IsBitmap (moved ws shift)
moved-IsBitmap ws shift b = elim (dec_lt shift window_size) [
  | yes near ↦ rw (lt→leb window_size shift near) (shift_bitmap-IsBitmap shift near b)
  | no far ↦ rw (le→leb window_size shift (omega arith)) cleared-IsBitmap
]

module _ {w : ReplayWindow} {h : List ℕ} (c : ℕ) (r : Represents w h) where
  bit_at-moved_new :
      (i : ℕ) → i < window_size → i < c - w.highest → bit_at (moved w.bitmap (c - w.highest)) i ≡ 0
  bit_at-moved_new i inside new = elim (dec_lt (c - w.highest) window_size) [
    | yes near ↦
        rw (lt→leb window_size (c - w.highest) near)
          (bit_at-shift_bitmap_low (c - w.highest) i r.bits near new)
    | no far ↦ rw (le→leb window_size (c - w.highest) (omega arith)) (bit_at-cleared i)
  ]

  bit_at-moved_old :
      (i : ℕ)
      → i < window_size
      → c - w.highest ≤ i
      → bit_at (moved w.bitmap (c - w.highest)) i ≡ bit_at w.bitmap (i - (c - w.highest))
  bit_at-moved_old i inside old =
      rw (lt→leb window_size (c - w.highest) (omega arith))
        (bit_at-shift_bitmap (c - w.highest) i r.bits (omega arith) inside old)

  -- A place of the moved bitmap, other than the first, tells of the history.
  seen-moved :
      w.highest < c
      → (i : ℕ) → i < window_size
      → i ≤ c
      → i ≢ 0
      → bit_at (moved w.bitmap (c - w.highest)) i ≡ digit_of (contains (c ∷ h) (c - i))
  seen-moved above i inside le ne = elim (dec_lt i (c - w.highest)) [
    | yes new ↦
        bit_at-moved_new i inside new
        ∙ rw (
          contains-cons_ne c h (c - i) (λ e. ne (omega arith)),
          contains_above h (c - i) (omega (arith, r.top)),
        )
    | no old ↦
        let place : w.highest - (i - (c - w.highest)) ≡ c - i = omega arith in
        bit_at-moved_old i inside (omega arith)
        ∙ r.seen (i - (c - w.highest)) (omega arith) (omega arith)
        ∙ rw (place, contains-cons_ne c h (c - i) (λ e. ne (omega arith)))
  ]

  advanced : ReplayWindow
  advanced = record { highest = c; bitmap = marked (moved w.bitmap (c - w.highest)) 0 }

  advance-Represents : w.highest < c → Represents advanced (c ∷ h)
  unfolding advanced
  advance-Represents above = record {
    top = omega (arith, r.top);
    bits = marked-IsBitmap (moved-IsBitmap w.bitmap (c - w.highest) r.bits) 0 (omega arith);
    seen = λ i inside le. elim (ℕ_discrete i 0) [
      | yes first ↦ rw first (
          bit_at-marked_self (moved-IsBitmap w.bitmap (c - w.highest) r.bits) 0 (omega arith)
          ∙ rw (contains-cons_self c h (c - 0) (omega arith)))
      | no later ↦
          bit_at-marked_ne (moved-IsBitmap w.bitmap (c - w.highest) r.bits) 0 (omega arith) i later
          ∙ seen-moved above i inside le later
    ];
  }

  filled : ReplayWindow
  filled = record w { bitmap = marked w.bitmap (w.highest - c) }

  fill_in-Represents : c ≤ w.highest → w.highest < c + window_size → Represents filled (c ∷ h)
  unfolding filled
  fill_in-Represents below recent = record {
    top = omega (arith, r.top);
    bits = marked-IsBitmap r.bits (w.highest - c) (omega arith);
    seen = λ i inside le. elim (ℕ_discrete i (w.highest - c)) [
      | yes here ↦ rw here (
          bit_at-marked_self r.bits (w.highest - c) (omega arith)
          ∙ rw (contains-cons_self c h (w.highest - (w.highest - c)) (omega arith)))
      | no other ↦
          bit_at-marked_ne r.bits (w.highest - c) (omega arith) i other
          ∙ r.seen i inside le
          ∙ rw (contains-cons_ne c h (w.highest - i) (λ e. other (omega arith)))
    ];
  }

  -- A counter that the specification accepts, and that is less than `2 ^ width` away from the
  -- highest one, is accepted with no panic, and the new window stands for the history with that
  -- counter added.
  pub accept_refines :
      (width : ℕ)
      → w.highest < c + 2 ^ width
      → c < w.highest + 2 ^ width
      → acceptable h c ≡ true
      → (w' : ReplayWindow) × (accept width w c ≡ ok w') × Represents w' (c ∷ h)
  unfolding accept advance fill_in advanced filled
  accept_refines width fits c_fits fresh = elim (dec_lt w.highest c) [
    | yes above ↦
        let no_wrap : as_usize width (c - w.highest) ≡ c - w.highest = mod-eq_of_lt (omega arith) in
        (
          advanced,
          rw (
            lt→ltb w.highest c above,
            no_wrap,
            mark_lem (moved-IsBitmap w.bitmap (c - w.highest) r.bits) 0 (omega arith),
          ),
          advance-Represents above,
        )
    | no below ↦
        let no_wrap : as_usize width (w.highest - c) ≡ w.highest - c = mod-eq_of_lt (omega arith) in
        let recent : w.highest < c + window_size = ground (arith, r.top) in
        (
          filled,
          rw (
            le→ltb w.highest c (omega arith),
            no_wrap,
            mark_lem r.bits (w.highest - c) (omega arith),
          ),
          fill_in-Represents (omega arith) recent,
        )
  ]
