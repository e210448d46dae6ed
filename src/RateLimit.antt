-- ===== src/RateLimit.antt =====
-- The token bucket of crates/microfips-esp-transport/src/rate_limit.rs. An `Instant` of the crate
-- embassy_time is its number of ticks, of which `tick_hz` make a second; `now` is an argument.
pub mod Bounds
pub mod Starved
mod Tests
use microfips.Base.{
  ℕ, ◌+◌, ◌-◌, ◌*◌, ◌/◌, ◌%◌, ◌^◌, min, ltb, leb, ◌==◌, if◌then◌else◌, Bool, true, false, List, [],
  ◌∷◌, Option, none, some,
}

pub record SendRateLimiter : Type 0 where
  pub rate_bytes_per_sec : ℕ
  pub burst_bytes : ℕ
  pub tokens : ℕ
  pub last_refill : ℕ

abbrev pub new : (now rate_bps burst_bytes : ℕ) → SendRateLimiter
new now rate_bps burst_bytes = record {
  rate_bytes_per_sec = rate_bps / 8;
  burst_bytes = burst_bytes;
  tokens = burst_bytes;
  last_refill = now;
}

-- What a refill adds, cast to `u32`. The product is a `u64` that wraps, as in a release build.
abbrev pub new_tokens : (elapsed rate : ℕ) → ℕ
new_tokens elapsed rate = elapsed * rate % 2 ^ 64 / 1000 % 2 ^ 32

abbrev pub spend : ℕ → SendRateLimiter → Bool × SendRateLimiter
spend bytes s =
    if leb bytes s.tokens then (true, record s { tokens = s.tokens - bytes }) else (false, s)

unfoldable pub wait_ms : (deficit rate : ℕ) → ℕ
wait_ms deficit rate = if ltb (deficit * 1000 / rate) 1 then 1 else deficit * 1000 / rate

-- The bytes that a call grants.
abbrev pub granted : Bool → ℕ → ℕ
granted true bytes = bytes
granted false bytes = 0

module _ (tick_hz : ℕ) where
  -- `as_millis` of the time since the last refill.
  abbrev pub elapsed_ms : (now last : ℕ) → ℕ
  elapsed_ms now last = (now - last) * 1000 / tick_hz

  unfoldable pub refill : ℕ → SendRateLimiter → SendRateLimiter
  refill now s =
      let elapsed = elapsed_ms now s.last_refill in
      if ltb 0 elapsed
      then record s {
        tokens =
            min (min (2 ^ 32 - 1) (s.tokens + new_tokens elapsed s.rate_bytes_per_sec))
              s.burst_bytes;
        last_refill = now;
      }
      else s

  unfoldable pub try_acquire : ℕ → ℕ → SendRateLimiter → Bool × SendRateLimiter
  try_acquire now bytes s =
      if s.rate_bytes_per_sec == 0 then (true, s) else spend (bytes % 2 ^ 32) (refill now s)

  -- The rounds of `acquire`, each at the time the timer of the round before lets it run; `none`
  -- while it still waits. The wait of a round that found too few tokens is `wait_ms`.
  unfoldable pub acquire : (nows : List ℕ) (bytes : ℕ) → SendRateLimiter → Option SendRateLimiter
  acquire [] bytes s = none
  acquire (now ∷ rest) bytes s =
      let after = acquire rest bytes (refill now s) in
      if s.rate_bytes_per_sec == 0
      then some s
      else if leb (bytes % 2 ^ 32) (refill now s).tokens
      then some (record (refill now s) { tokens = (refill now s).tokens - bytes % 2 ^ 32 })
      else after

  -- Calls of `try_acquire` at these times with these sizes: the bytes that were granted in all, and
  -- the limiter.
  unfoldable pub run : List (ℕ × ℕ) → SendRateLimiter → ℕ × SendRateLimiter
  run [] s = (0, s)
  run ((now, bytes) ∷ rest) s =
      let one = try_acquire now bytes s in
      let more = run rest one.1 in (granted one.0 bytes + more.0, more.1)
