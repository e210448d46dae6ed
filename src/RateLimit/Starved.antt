-- ===== src/RateLimit/Starved.antt =====
-- Requests that a token bucket never grants.
use microfips.Base.{
  ℕ, ◌+◌, ◌-◌, ◌*◌, ◌%◌, ◌^◌, ◌≤◌, ◌<◌, min, ◌==◌, false, List, [], ◌∷◌, ◌≡◌, refl, arith, ap, ◌∙◌,
  none, lt→ltb, lt→leb,
}
use microfips.RateLimit.Bounds.{refill_within}
use microfips.RateLimit.{SendRateLimiter, refill, try_acquire, run, elapsed_ms, new_tokens, acquire}

-- Each time is a millisecond or more after the one before, and before the rate has brought a byte.
abbrev pub IsFrequent : (hz rate last : ℕ) → List ℕ → Type 0
IsFrequent hz rate last [] = Unit
IsFrequent hz rate last (now ∷ rest) =
    (0 < elapsed_ms hz now last)
    × (elapsed_ms hz now last * rate < 1000)
    × IsFrequent hz rate now rest

-- Requests of the same size at these times.
abbrev pub polls : ℕ → List ℕ → List (ℕ × ℕ)
polls bytes [] = []
polls bytes (now ∷ rest) = (now, bytes) ∷ polls bytes rest

poll_lem :
    (hz now bytes : ℕ) (s : SendRateLimiter)
    → (s.rate_bytes_per_sec == 0) ≡ false
    → 0 < elapsed_ms hz now s.last_refill
    → elapsed_ms hz now s.last_refill * s.rate_bytes_per_sec < 1000
    → s.tokens < bytes % 2 ^ 32
    → s.tokens ≤ s.burst_bytes
    → try_acquire hz now bytes s ≡ (false, record s { last_refill = now })
unfolding try_acquire refill
poll_lem hz now bytes s limited some_time few short full =
    let same : min
          (min (2 ^ 32 - 1)
            (s.tokens + new_tokens (elapsed_ms hz now s.last_refill) s.rate_bytes_per_sec))
          s.burst_bytes
        ≡ s.tokens =
      omega arith in
    rw (
      limited,
      lt→ltb 0 (elapsed_ms hz now s.last_refill) some_time,
      same,
      lt→leb (bytes % 2 ^ 32) s.tokens short,
    )

-- A limiter with a rate that has too few tokens for a request grants it never, at however many times
-- it is asked, where each is a millisecond or more after the one before and before the rate has
-- brought a byte: a refill drops the fraction, and begins to count anew.
pub polled_limiter_starves :
    (hz bytes : ℕ) (nows : List ℕ) (s : SendRateLimiter)
    → (s.rate_bytes_per_sec == 0) ≡ false
    → IsFrequent hz s.rate_bytes_per_sec s.last_refill nows
    → s.tokens < bytes % 2 ^ 32
    → s.tokens ≤ s.burst_bytes
    → (run hz (polls bytes nows) s).0 ≡ 0
unfolding run
polled_limiter_starves hz bytes [] s limited h short full = refl
polled_limiter_starves hz bytes (now ∷ rest) s limited h short full =
    rw (poll_lem hz now bytes s limited h.0 h.1 short full) (
      omega (
        arith,
        polled_limiter_starves hz bytes rest (record s { last_refill = now }) limited h.2 short
            full,
      ))

-- A request of more than the burst is never granted by `acquire`, whatever times its rounds have.
pub acquire_never :
    (hz bytes : ℕ) (nows : List ℕ) (s : SendRateLimiter)
    → (s.rate_bytes_per_sec == 0) ≡ false
    → s.burst_bytes < bytes % 2 ^ 32
    → s.tokens ≤ s.burst_bytes
    → acquire hz nows bytes s ≡ none
unfolding acquire
acquire_never hz bytes [] s limited big full = refl
acquire_never hz bytes (now ∷ rest) s limited big full =
    let (within, same_burst, same_rate) = refill_within hz now s full in
    rw (
      limited,
      lt→leb (bytes % 2 ^ 32) (refill hz now s).tokens (omega (arith, within)),
      acquire_never hz bytes rest (refill hz now s) (ap (λ t. t == 0) same_rate ∙ limited)
          (omega (arith, same_burst)) (omega (arith, within, same_burst)),
    )
