-- ===== src/Policy/FrameRate.antt =====
-- How many frames the limit on the frame rate rejects.
use microfips.Base.{ℕ, ◌+◌, ◌-◌, ◌*◌, ◌≤◌, List, [], ◌∷◌, leb, arith, Bool-cases, inl, inr}
use microfips.Policy.{
  PeerPolicy, PolicyVerdict, check_frame_rate, open_window, count_frame, as_millis, frame_rate_max,
}

abbrev pub counts : PolicyVerdict → ℕ × ℕ
counts PolicyVerdict.allow = (1, 0)
counts (PolicyVerdict.backoff delay) = (0, 0)
counts PolicyVerdict.reject = (0, 1)

-- The frames that are allowed and those that are rejected, at these times.
unfoldable pub tally : (tick_hz : ℕ) (times : List ℕ) → PeerPolicy → ℕ × ℕ
tally hz [] p = (0, 0)
tally hz (now ∷ times) p =
    let one = check_frame_rate hz now p in
    let (allowed, rejected) = counts one.0 in
    let more = tally hz times one.1 in (allowed + more.0, rejected + more.1)

-- A call pays for a rejection with the frames that were counted.
count_frame_pays :
    (hz now : ℕ) (p : PeerPolicy)
    → ((counts (count_frame hz now p).0).1 * frame_rate_max + (count_frame hz now p).1.frame_count
        ≤ p.frame_count + (counts (count_frame hz now p).0).0)
count_frame_pays hz now p = elim (Bool-cases (leb 100 p.frame_count)) [
  | inl full ↦ rw full (ground arith)
  | inr free ↦ rw free (ground arith)
]

open_window_count :
    (hz now : ℕ) (p : PeerPolicy) → (open_window hz now p).frame_count ≤ p.frame_count
open_window_count hz now p =
    elim (Bool-cases
      (leb p.timing.frame_rate_window_ms (as_millis hz now - as_millis hz p.frame_window_start))) [
        | inl over ↦ rw over (omega arith)
        | inr within ↦ rw within (omega arith)
      ]

-- Whatever the times and the window: a hundred times the frames that are rejected are at most those
-- that are allowed and those that were counted before.
pub rejections_are_few :
    (hz : ℕ) (times : List ℕ) (p : PeerPolicy)
    → frame_rate_max * (tally hz times p).1 ≤ (tally hz times p).0 + p.frame_count
unfolding tally check_frame_rate
rejections_are_few hz [] p = omega arith
rejections_are_few hz (now ∷ times) p =
    let opened = open_window hz now p in
    omega (
      arith,
      count_frame_pays hz now opened,
      open_window_count hz now p,
      rejections_are_few hz times (count_frame hz now opened).1,
    )
