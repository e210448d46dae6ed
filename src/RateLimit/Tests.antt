-- ===== src/RateLimit/Tests.antt =====
-- The token bucket at concrete calls, with a tick of a millisecond.
use microfips.Base.{ℕ, List, [], ◌∷◌, ◌≡◌, ◌≤◌, ◌+◌, ◌*◌, refl, arith}
use microfips.RateLimit.{SendRateLimiter, new, run}
use microfips.RateLimit.Bounds.{granted_bound}
use microfips.RateLimit.Starved.{polled_limiter_starves, polls}

abbrev earlier : List (ℕ × ℕ)
earlier = (10, 60) ∷ []

abbrev later : List (ℕ × ℕ)
later = (20, 60) ∷ (120, 60) ∷ []

granted_bound_example :
    1000 * (run 1000 later (run 1000 earlier (new 0 8000 100)).1).0
      + 1000 * (run 1000 earlier (new 0 8000 100)).1.last_refill
    ≤ 1000 * 100 + 1000 * (run 1000 later (run 1000 earlier (new 0 8000 100)).1).1.last_refill
granted_bound_example =
    granted_bound 1000 0 8000 100 earlier later (omega arith)
      (omega arith, omega arith, (omega arith, omega arith, (omega arith, omega arith, tt)))

-- An empty bucket of 800 bytes a second.
abbrev empty : SendRateLimiter
empty = record { rate_bytes_per_sec = 800; burst_bytes = 100; tokens = 0; last_refill = 0 }

polled_limiter_starves_example : (run 1000 (polls 20 (1 ∷ 2 ∷ 3 ∷ [])) empty).0 ≡ 0
polled_limiter_starves_example =
    polled_limiter_starves 1000 20 (1 ∷ 2 ∷ 3 ∷ []) empty refl
      (omega arith, omega arith, (omega arith, omega arith, (omega arith, omega arith, tt)))
      (omega arith) (omega arith)
