-- ===== src/Policy/Tests.antt =====
-- The policy at concrete times, with a tick of a millisecond.
use microfips.Base.{
  ℕ, zero, suc, ◌+◌, ◌*◌, ◌/◌, ◌≡◌, ◌≤◌, max, [], ◌∷◌, ◌++◌, replicate, length-replicate, refl,
  arith,
}
use microfips.Policy.{
  PeerPolicy, with_timing, default_timing, check_reconnect, failure_backoff_ms, frame_rate_max,
  required_ms, base_interval_ms, max_backoff_ms, record_handshake_failure,
  max_total_reconnect_attempts,
}
use microfips.Policy.Run.{Round, Session, run, run_round}
use microfips.Policy.Wedged.{AllFail, hundred_failures_end_sessions}
use microfips.Policy.FrameRate.{tally, rejections_are_few}
use microfips.Policy.Reconnect.{attempts_are_spaced}

abbrev failing : Round
failing = record { checked = 10; attempted = 20; session = Session.failed 30 }

abbrev healthy : Round
healthy = record {
  checked = 999999999;
  attempted = 999999999;
  session = Session.established 999999999 [];
}

all_failing : (n : ℕ) → AllFail (replicate n failing)
all_failing zero = tt
all_failing (suc n) = ((30, refl), all_failing n)

hundred_failures_end_sessions_example :
    (run 1000 (replicate 120 failing ++ healthy ∷ []) (with_timing default_timing 0)).0
    ≡ max_total_reconnect_attempts
hundred_failures_end_sessions_example =
    hundred_failures_end_sessions 1000 0 default_timing (replicate 120 failing) (healthy ∷ [])
      (all_failing 120) (omega (arith, length-replicate {A = Round} 120 failing))

rejections_are_few_example :
    frame_rate_max * (tally 1000 (replicate 205 500) (with_timing default_timing 0)).1
    ≤ (tally 1000 (replicate 205 500) (with_timing default_timing 0)).0 + 0
rejections_are_few_example =
    rejections_are_few 1000 (replicate 205 500) (with_timing default_timing 0)

-- A policy after a failure at 4 seconds, and the round after it.
abbrev once_failed : PeerPolicy
once_failed = record_handshake_failure 4000 (with_timing default_timing 0)

abbrev next_round : Round
next_round = record { checked = 5000; attempted = 9100; session = Session.not_ready }

attempts_are_spaced_example :
    (4000 * 1000 / 1000 + required_ms default_timing 1 ≤ 9100 * 1000 / 1000)
    × (base_interval_ms default_timing ≤ required_ms default_timing 1)
    × (required_ms default_timing 3
        ≤ max (base_interval_ms default_timing) (max_backoff_ms default_timing))
    × (required_ms default_timing 1 ≤ required_ms default_timing 3)
unfolding check_reconnect run_round failure_backoff_ms
attempts_are_spaced_example =
    attempts_are_spaced 1000 4000 3 next_round once_failed refl (omega arith) (omega arith) refl
      (omega arith)
