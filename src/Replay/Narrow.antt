-- ===== src/Replay/Narrow.antt =====
-- Where a `usize` is narrower than a counter, as on the 32-bit microcontrollers, the cast in
-- `check` drops the high digits of the age of a counter.
use native.Mathlib.Nat.{add-mod_right}
use microfips.Base.{ℕ, ◌+◌, ◌-◌, ◌^◌, ◌≤◌, ◌<◌, List, ◌≡◌, arith, ap, ◌∙◌, true, false}
use microfips.Exec.{ok}
use microfips.Replay.{ReplayWindow, check, u64_max, as_usize, window_size}
use microfips.Replay.Spec.{acceptable}
use microfips.Replay.Window.{Represents, check_refines}

-- The age of a counter that is a whole `2 ^ width` older than another reads as the other's.
as_usize_aliases :
    (width top c : ℕ)
    → c + 2 ^ width ≤ top
    → as_usize width (top - c) ≡ as_usize width (top - (c + 2 ^ width))
as_usize_aliases width top c old =
    let younger : top - (c + 2 ^ width) + 2 ^ width ≡ top - c = omega arith in
    rw (← younger) (add-mod_right (top - (c + 2 ^ width)) (2 ^ width))

-- `check` answers for a counter as it does for the one that is `2 ^ width` younger.
check_aliases :
    (width : ℕ) (w : ReplayWindow) (c : ℕ)
    → w.highest < u64_max
    → c + 2 ^ width ≤ w.highest
    → check width w c ≡ check width w (c + 2 ^ width)
unfolding check
check_aliases width w c small old =
    let same = as_usize_aliases width w.highest c old in rw same (ground arith)

-- On a window that stands for a history, with a highest counter below `u64::MAX`, and with a `usize`
-- that can hold the window's size: a counter that is `2 ^ width` older than one that is at most the
-- highest and still acceptable is refused by the specification for its age, and passes `check`.
pub old_counter_passes :
    (width : ℕ) {w : ReplayWindow} {h : List ℕ} (c : ℕ)
    → Represents w h
    → w.highest < u64_max
    → window_size ≤ 2 ^ width
    → c + 2 ^ width ≤ w.highest
    → acceptable h (c + 2 ^ width) ≡ true
    → (acceptable h c ≡ false) × (check width w c ≡ ok true)
old_counter_passes width {w} {h} c r small wide old younger =
    let recent : w.highest < c + 2 ^ width + window_size = ground (arith, r.top) in
    (
      ground (arith, r.top),
      check_aliases width w c small old
          ∙ check_refines width (c + 2 ^ width) r (omega arith)
          ∙ ap ok younger,
    )
