-- ===== src/Policy/Reconnect.antt =====
-- How long the check holds a reconnect back.
use native.Mathlib.Nat.{mul-le-mul_left, pow-le-pow_right}
use microfips.Base.{
  ℕ, ◌+◌, ◌-◌, ◌≡◌, ◌≤◌, min, max, some, true, false, ltb, leb, ltb→lt, ltb→le, arith, subst,
  Bool-cases, inl, inr,
}
use microfips.Policy.Run.{Round, run_round}
use microfips.Policy.{
  PeerPolicy, PeerPolicyTiming, PolicyVerdict, check_reconnect, forget_failures, wait_since,
  required_ms, failure_backoff_ms, base_interval_ms, max_backoff_ms, as_millis,
}

-- The wait that failures call for does not shrink with another failure.
failure_backoff_mono :
    (t : PeerPolicyTiming) (n m : ℕ) → n ≤ m → failure_backoff_ms t n ≤ failure_backoff_ms t m
unfolding failure_backoff_ms
failure_backoff_mono t n m h =
    let grows =
      pow-le-pow_right {n = 2} (omega arith) {i = min (n - 1) 15} {j = min (m - 1) 15}
        (omega arith) in
    let scaled = mul-le-mul_left (base_interval_ms t) grows in ground (arith, scaled)

required_bounds :
    (t : PeerPolicyTiming) (n : ℕ)
    → (base_interval_ms t ≤ required_ms t n)
      × (required_ms t n ≤ max (base_interval_ms t) (max_backoff_ms t))
unfolding failure_backoff_ms
required_bounds t n = ground arith

-- The timer of a backoff is waited for, and time does not go back.
abbrev pub IsTimely : (tick_hz : ℕ) → Round → PolicyVerdict → Type 0
IsTimely hz round PolicyVerdict.allow = as_millis hz round.checked ≤ as_millis hz round.attempted
IsTimely hz round (PolicyVerdict.backoff delay) =
    as_millis hz round.checked + delay ≤ as_millis hz round.attempted
IsTimely hz round PolicyVerdict.reject = Unit

waited :
    (hz last required : ℕ) (round : Round)
    → as_millis hz last ≤ as_millis hz round.checked
    → IsTimely hz round (wait_since hz (some last) round.checked required)
    → as_millis hz last + required ≤ as_millis hz round.attempted
waited hz last required round after timely =
    elim (Bool-cases (ltb (as_millis hz round.checked - as_millis hz last) required)) [
      | inl soon ↦
          let soon' = ltb→lt (as_millis hz round.checked - as_millis hz last) required soon in
          let timely' = rw soon at timely in omega (arith, soon', timely')
      | inr due ↦
          let due' = ltb→le (as_millis hz round.checked - as_millis hz last) required due in
          let timely' = rw due at timely in omega (arith, due', timely')
    ]

-- A session that the loop begins after an earlier attempt, where the timer of a backoff is waited for
-- and time does not go back: it is attempted at least the required time after that attempt, in
-- milliseconds. The required time is the base interval at least and, of the base interval and the
-- cap of the backoff, the greater one at most, and with as many failures or more it is as long.
pub attempts_are_spaced :
    (hz last more_failures : ℕ) (round : Round) (p : PeerPolicy)
    → p.last_connect ≡ some last
    → as_millis hz last ≤ as_millis hz round.checked
    → IsTimely hz round (check_reconnect hz round.checked p).0
    → (run_round hz round p).0 ≡ true
    → (check_reconnect hz round.checked p).1.consecutive_failures ≤ more_failures
    → (as_millis hz last
          + required_ms p.timing (check_reconnect hz round.checked p).1.consecutive_failures
        ≤ as_millis hz round.attempted)
      × (base_interval_ms p.timing
          ≤ required_ms p.timing (check_reconnect hz round.checked p).1.consecutive_failures)
      × (required_ms p.timing more_failures
          ≤ max (base_interval_ms p.timing) (max_backoff_ms p.timing))
      × (required_ms p.timing (check_reconnect hz round.checked p).1.consecutive_failures
          ≤ required_ms p.timing more_failures)
unfolding run_round check_reconnect
attempts_are_spaced hz last more_failures round p e after timely began more =
    elim (Bool-cases (leb 100 p.total_reconnect_attempts)) [
      | inl full ↦ let never : false ≡ true = rw full at began in cc
      | inr free ↦
          let kept = forget_failures hz p.first_failure_time round.checked p in
          let n = kept.consecutive_failures in
          let timely' = rw free at timely in
          let timely'' =
            subst (λ k. IsTimely hz round (wait_since hz k round.checked (required_ms p.timing n)))
              e timely' in
          let more' : n ≤ more_failures = rw free at more in
          let grows = failure_backoff_mono p.timing n more_failures more' in
          rw free (
            waited hz last (required_ms p.timing n) round after timely'',
            (required_bounds p.timing n).0,
            (required_bounds p.timing more_failures).1,
            omega (arith, grows),
          )
    ]
