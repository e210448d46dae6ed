-- ===== src/Replay/Tests.antt =====
-- The replay window at concrete counters.
use microfips.Base.{ℕ, ◌+◌, ◌^◌, List, [], ◌∷◌, ◌≡◌, refl, true, false, arith, replicate, set}
use microfips.Exec.{ok}
use microfips.Replay.{ReplayWindow, new, check, accept, shift_bitmap, words}
use microfips.Replay.Spec.{acceptable}
use microfips.Replay.Digits.{bit_at}
use microfips.Replay.Bitmap.{bit_at-shift_bitmap, cleared-IsBitmap, set-IsBitmap}
use microfips.Replay.Window.{Represents, check_refines, new-Represents}
use microfips.Replay.Accept.{accept_refines}
use microfips.Replay.Narrow.{old_counter_passes}

accept_refines_example : (w : ReplayWindow) × (accept 64 new 5 ≡ ok w) × Represents w (5 ∷ [])
accept_refines_example =
    accept_refines 5 new-Represents 64 (unfold new in omega arith) (unfold new in omega arith) refl

abbrev after_five : (w : ReplayWindow) × (accept 64 new 5 ≡ ok w) × Represents w (5 ∷ [])
after_five =
    accept_refines 5 new-Represents 64 (unfold new in omega arith) (unfold new in omega arith) refl

-- The counter that was accepted is refused.
check_refines_example : check 64 after_five.0 5 ≡ ok false
check_refines_example = check_refines 64 5 after_five.2 (omega (arith, after_five.2.top))

-- A window whose highest counter is above `2 ^ 32`.
abbrev after_wide :
    (w : ReplayWindow) × (accept 64 new (2 ^ 32 + 6) ≡ ok w) × Represents w ((2 ^ 32 + 6) ∷ [])
after_wide =
    accept_refines (2 ^ 32 + 6) new-Represents 64 (unfold new in omega arith)
      (unfold new in omega arith) refl

old_counter_passes_example :
    (acceptable ((2 ^ 32 + 6) ∷ []) 5 ≡ false) × (check 32 after_wide.0 5 ≡ ok true)
old_counter_passes_example =
    old_counter_passes 32 5 after_wide.2 (omega (arith, after_wide.2.top)) (omega arith)
      (omega (arith, after_wide.2.top)) refl

abbrev high_digit : List ℕ
high_digit = set (replicate words 0) 0 (2 ^ 63)

-- The digit at place 63 crosses into a later word.
bit_at-shift_bitmap_example : bit_at (shift_bitmap 70 high_digit) 133 ≡ 1
bit_at-shift_bitmap_example =
    bit_at-shift_bitmap 70 133 (set-IsBitmap 0 (2 ^ 63) cleared-IsBitmap (omega arith))
      (omega arith) (omega arith) (omega arith)
