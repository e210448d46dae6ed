-- ===== src/Backoff/Bounds.antt =====
-- The waits that `record_failure` sets, and when it denies.
use native.Mathlib.Nat.{pow-suc, one-le-pow, mul-le-mul_right}
use microfips.Base.{ℕ, zero, suc, ◌+◌, ◌*◌, ◌/◌, ◌^◌, ◌≤◌, ◌<◌, min, Bool, true, false}
use microfips.Base.{◌≡◌, refl, arith, le→leb, lt→leb, lt→ltb, le→ltb, List, [], ◌∷◌, length}
use microfips.Backoff.{
  L2capBackoff, capped, jitter, record_failure, failure_count, is_denied, is_in_backoff,
}
use microfips.Backoff.{max_failures, new}

-- After a first failure the delay is ten seconds at least.
capped_bounds : (failures : ℕ) → 1 ≤ failures → (10 ≤ capped failures) × (capped failures ≤ 300)
unfolding capped
capped_bounds zero h = absurd (omega arith)
capped_bounds (suc n) h =
    let step : min (suc n) 10 ≡ suc (min n 9) = omega arith in
    let low : 1 ≤ 2 ^ min n 9 = one-le-pow (min n 9) 2 (omega arith) in
    rw (step, pow-suc 2 (min n 9)) (omega arith, omega arith)

jitter_bound : (failures : ℕ) → jitter failures ≤ capped failures / 5
unfolding jitter
jitter_bound failures = omega arith

-- No denial; `n` failures; attempts are held back at `early`, and not at `late`.
abbrev pub HoldsBack : ℕ → ℕ → ℕ → Bool × L2capBackoff → Type 0
HoldsBack n early late (denies, b) =
    (denies ≡ false)
    × (failure_count b ≡ n)
    × (is_in_backoff early b ≡ true)
    × (is_in_backoff late b ≡ false)

-- A denial, that holds at `early` and no more at `late`, and no failures.
abbrev pub Denies : ℕ → ℕ → Bool × L2capBackoff → Type 0
Denies early late (denies, b) =
    (denies ≡ true)
    × (failure_count b ≡ 0)
    × ((is_denied early b).0 ≡ true)
    × ((is_denied late b).0 ≡ false)

-- Before the tenth failure in a row, `record_failure` does not deny; it counts the failure, and
-- holds attempts back for ten seconds at least and for six minutes at most.
pub record_failure-HoldsBack :
    (tick_hz now : ℕ) (b : L2capBackoff) (early late : ℕ)
    → failure_count b < 9
    → early < now + 10 * tick_hz
    → now + 360 * tick_hz ≤ late
    → HoldsBack (failure_count b + 1) early late (record_failure tick_hz now b)
unfolding record_failure
record_failure-HoldsBack tick_hz now b early late few soon after =
    let n = failure_count b + 1 in
    let bounds = capped_bounds n (omega arith) in
    let wait = capped n + jitter n in
    let least : 10 * tick_hz ≤ wait * tick_hz =
      mul-le-mul_right tick_hz (omega (arith, bounds.0)) in
    let most : wait * tick_hz ≤ 360 * tick_hz =
      mul-le-mul_right tick_hz (omega (arith, bounds.1, jitter_bound n)) in
    rw
      (
        lt→leb max_failures n (omega arith),
        lt→ltb early (now + wait * tick_hz) (omega (arith, least)),
        le→ltb late (now + wait * tick_hz) (omega (arith, most)),
      )
      (refl, refl, refl, refl)

-- A failure after nine or more in a row denies the peer for five minutes, and the count starts
-- again.
pub record_failure-Denies :
    (tick_hz now : ℕ) (b : L2capBackoff) (early late : ℕ)
    → 9 ≤ failure_count b
    → early < now + 300 * tick_hz
    → now + 300 * tick_hz ≤ late
    → Denies early late (record_failure tick_hz now b)
unfolding record_failure
record_failure-Denies tick_hz now b early late many soon after =
    rw
      (
        le→leb max_failures (failure_count b + 1) (omega arith),
        lt→ltb early (now + 300 * tick_hz) soon,
        le→ltb late (now + 300 * tick_hz) after,
      )
      (refl, refl, refl, refl)

-- A run of failures at these times, with the answer of the last call.
abbrev pub fail_all : ℕ → List ℕ → Bool × L2capBackoff → Bool × L2capBackoff
fail_all tick_hz [] r = r
fail_all tick_hz (now ∷ nows) r = fail_all tick_hz nows (record_failure tick_hz now r.1)

record_failure_counts :
    (tick_hz now : ℕ) (b : L2capBackoff)
    → failure_count b < 9
    → ((record_failure tick_hz now b).0 ≡ false)
      × (failure_count (record_failure tick_hz now b).1 ≡ failure_count b + 1)
unfolding record_failure
record_failure_counts tick_hz now b few =
    rw (lt→leb max_failures (failure_count b + 1) (omega arith)) (refl, refl)

fail_all-Counts :
    (tick_hz : ℕ) (nows : List ℕ) (r : Bool × L2capBackoff)
    → r.0 ≡ false
    → failure_count r.1 + length nows ≤ 9
    → ((fail_all tick_hz nows r).0 ≡ false)
      × (failure_count (fail_all tick_hz nows r).1 ≡ failure_count r.1 + length nows)
fail_all-Counts tick_hz [] r e few = (e, omega arith)
fail_all-Counts tick_hz (now ∷ nows) r e few =
    let (quiet, counted) = record_failure_counts tick_hz now r.1 (omega arith) in
    let (still_quiet, total) =
      fail_all-Counts tick_hz nows (record_failure tick_hz now r.1) quiet
        (omega (arith, counted)) in
    (still_quiet, omega (arith, total, counted))

-- From a new tracker, nine failures in a row, at any times, deny nothing, and the tenth denies the
-- peer for five minutes.
pub tenth_failure-Denies :
    (tick_hz now : ℕ) (nows : List ℕ) (early late : ℕ)
    → length nows ≡ 9
    → early < now + 300 * tick_hz
    → now + 300 * tick_hz ≤ late
    → ((fail_all tick_hz nows (false, new)).0 ≡ false)
      × Denies early late (record_failure tick_hz now (fail_all tick_hz nows (false, new)).1)
tenth_failure-Denies tick_hz now nows early late nine soon after =
    let (quiet, total) = fail_all-Counts tick_hz nows (false, new) refl (omega (arith, nine)) in
    (
      quiet,
      record_failure-Denies tick_hz now (fail_all tick_hz nows (false, new)).1 early late
          (omega (arith, total, nine)) soon after,
    )
