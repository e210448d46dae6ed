-- ===== src/RateLimit/Bounds.antt =====
-- What a token bucket grants in all.
use native.Mathlib.Nat.{mul-le-mul_left, mul-le-mul_right, mul-div-le, mul-add}
use microfips.Base.{
  ◌++◌, ℕ, ◌+◌, ◌-◌, ◌*◌, ◌/◌, ◌%◌, ◌^◌, ◌≤◌, ◌<◌, min, ltb, leb, ◌==◌, true, false, Bool-cases,
  List, [], ◌∷◌, ◌≡◌, refl, arith, ap, inl, inr, ◌∙◌,
}
use microfips.RateLimit.{
  SendRateLimiter, new, refill, spend, try_acquire, run, granted, elapsed_ms, new_tokens,
}

-- Where `e` milliseconds are at most `d` ticks, the tokens for `e` are at most the rate for `d`.
refill_amount : (hz d e rate x : ℕ) → hz * e ≤ 1000 * d → 1000 * x ≤ e * rate → hz * x ≤ rate * d
refill_amount hz d e rate x h k = omega (arith, mul-le-mul_right rate h, mul-le-mul_left hz k)

-- What a call does to a limiter: `bytes` are granted, the rate and the burst stay, and the tokens
-- that were there and those of the time gone by pay for it.
abbrev Pays : (hz bytes : ℕ) → SendRateLimiter → SendRateLimiter → Type 0
Pays hz bytes s t =
    (t.rate_bytes_per_sec ≡ s.rate_bytes_per_sec)
    × (s.last_refill ≤ t.last_refill)
    × (hz * (bytes + t.tokens) + s.rate_bytes_per_sec * s.last_refill
        ≤ hz * s.tokens + s.rate_bytes_per_sec * t.last_refill)

-- Calls at times that do not go back, each for less than 2 ^ 32 bytes.
abbrev pub AreCalls : ℕ → List (ℕ × ℕ) → Type 0
AreCalls last [] = Unit
AreCalls last ((now, bytes) ∷ rest) = (last ≤ now) × (bytes < 2 ^ 32) × AreCalls now rest

sooner :
    (now last : ℕ) (calls : List (ℕ × ℕ)) → last ≤ now → AreCalls now calls → AreCalls last calls
sooner now last [] h k = tt
sooner now last ((next, bytes) ∷ rest) h k = (omega (arith, k.0), k.1, k.2)

module _ (hz now : ℕ) (s : SendRateLimiter) (later : s.last_refill ≤ now) where
  refill-Pays : Pays hz 0 s (refill hz now s)
  unfolding refill
  refill-Pays =
      let d = now - s.last_refill in
      let rate = s.rate_bytes_per_sec in
      let e = elapsed_ms hz now s.last_refill in
      let x = e * rate / 1000 in
      let ms : hz * e ≤ 1000 * d = omega (arith, mul-div-le (d * 1000) hz) in
      let whole : 1000 * x ≤ e * rate = mul-div-le (e * rate) 1000 in
      let amount = refill_amount hz d e rate x ms whole in
      let gone : d + s.last_refill ≡ now = omega arith in
      let since = mul-add rate d s.last_refill in
      let split : rate * (d + s.last_refill) ≡ rate * now = ap (λ t. rate * t) gone in
      let kept : min (min (2 ^ 32 - 1) (s.tokens + new_tokens e rate)) s.burst_bytes
          ≤ s.tokens + x =
        omega arith in
      let paid = mul-le-mul_left hz kept in
      elim (Bool-cases (ltb 0 e)) [
        | inl f ↦ rw f (refl, later, omega (arith, paid, amount, since, split))
        | inr f ↦ rw f (refl, omega arith, omega arith)
      ]

  refill_not_past : (refill hz now s).last_refill ≤ now
  unfolding refill
  refill_not_past = elim (Bool-cases (ltb 0 (elapsed_ms hz now s.last_refill))) [
    | inl f ↦ rw f (omega arith)
    | inr f ↦ rw f later
  ]

leb→le : (a b : ℕ) → leb a b ≡ true → a ≤ b
leb→le a b h = ground arith

-- The tokens of a request that is granted are taken out of the bucket.
spend_lem :
    (bytes : ℕ) (s : SendRateLimiter)
    → bytes < 2 ^ 32
    → (granted (spend (bytes % 2 ^ 32) s).0 bytes + (spend (bytes % 2 ^ 32) s).1.tokens ≤ s.tokens)
      × ((spend (bytes % 2 ^ 32) s).1.last_refill ≡ s.last_refill)
      × ((spend (bytes % 2 ^ 32) s).1.rate_bytes_per_sec ≡ s.rate_bytes_per_sec)
spend_lem bytes s small = elim (Bool-cases (leb (bytes % 2 ^ 32) s.tokens)) [
  | inl f ↦ rw f (omega (arith, leb→le (bytes % 2 ^ 32) s.tokens f), refl, refl)
  | inr f ↦ rw f (omega arith, refl, refl)
]

try_acquire-Pays :
    (hz now bytes : ℕ) (s : SendRateLimiter)
    → s.last_refill ≤ now
    → bytes < 2 ^ 32
    → (s.rate_bytes_per_sec == 0) ≡ false
    → Pays hz (granted (try_acquire hz now bytes s).0 bytes) s (try_acquire hz now bytes s).1
      × ((try_acquire hz now bytes s).1.last_refill ≤ now)
unfolding try_acquire
try_acquire-Pays hz now bytes s later small limited =
    let r = refill hz now s in
    let (rate, forward, paid) = refill-Pays hz now s later in
    let past = refill_not_past hz now s later in
    let (taken, same_last, same_rate) = spend_lem bytes r small in
    let cost = mul-le-mul_left hz taken in
    rw limited (
      (
        same_rate ∙ rate,
        omega (arith, same_last, forward),
        rw same_last (omega (arith, cost, paid)),
      ),
      omega (arith, same_last, past),
    )

run-Pays :
    (hz : ℕ) (calls : List (ℕ × ℕ)) (s : SendRateLimiter)
    → (s.rate_bytes_per_sec == 0) ≡ false
    → AreCalls s.last_refill calls
    → Pays hz (run hz calls s).0 s (run hz calls s).1
unfolding run
run-Pays hz [] s limited h = (refl, omega arith, omega arith)
run-Pays hz ((now, bytes) ∷ rest) s limited h =
    let one = try_acquire hz now bytes s in
    let ((rate, forward, paid), past) = try_acquire-Pays hz now bytes s h.0 h.1 limited in
    let (rate', forward', paid') =
      run-Pays hz rest one.1 (ap (λ t. t == 0) rate ∙ limited)
        (sooner now one.1.last_refill rest past h.2) in
    let cost : one.1.rate_bytes_per_sec * one.1.last_refill
        ≡ s.rate_bytes_per_sec * one.1.last_refill =
      ap (λ t. t * one.1.last_refill) rate in
    let cost' : one.1.rate_bytes_per_sec * (run hz rest one.1).1.last_refill
        ≡ s.rate_bytes_per_sec * (run hz rest one.1).1.last_refill =
      ap (λ t. t * (run hz rest one.1).1.last_refill) rate in
    (rate' ∙ rate, omega arith, omega (arith, paid, paid', cost, cost'))

-- A refill leaves no more tokens than the burst.
pub refill_within :
    (hz now : ℕ) (s : SendRateLimiter)
    → s.tokens ≤ s.burst_bytes
    → ((refill hz now s).tokens ≤ s.burst_bytes)
      × ((refill hz now s).burst_bytes ≡ s.burst_bytes)
      × ((refill hz now s).rate_bytes_per_sec ≡ s.rate_bytes_per_sec)
unfolding refill
refill_within hz now s full = elim (Bool-cases (ltb 0 (elapsed_ms hz now s.last_refill))) [
  | inl f ↦ rw f (omega arith, refl, refl)
  | inr f ↦ rw f (full, refl, refl)
]

spend_within :
    (bytes : ℕ) (s : SendRateLimiter)
    → s.tokens ≤ s.burst_bytes
    → ((spend bytes s).1.tokens ≤ s.burst_bytes) × ((spend bytes s).1.burst_bytes ≡ s.burst_bytes)
spend_within bytes s full = elim (Bool-cases (leb bytes s.tokens)) [
  | inl f ↦ rw f (omega arith, refl)
  | inr f ↦ rw f (full, refl)
]

-- The bucket holds at most its burst, and the burst stays.
abbrev IsWithin : ℕ → SendRateLimiter → Type 0
IsWithin burst s = (s.tokens ≤ burst) × (s.burst_bytes ≡ burst)

try_acquire-IsWithin :
    (hz now bytes : ℕ) (s : SendRateLimiter)
    → (s.rate_bytes_per_sec == 0) ≡ false
    → s.tokens ≤ s.burst_bytes
    → IsWithin s.burst_bytes (try_acquire hz now bytes s).1
unfolding try_acquire
try_acquire-IsWithin hz now bytes s limited full =
    let r = refill hz now s in
    let (within, same, rate) = refill_within hz now s full in
    let (spent, same') = spend_within (bytes % 2 ^ 32) r (omega (arith, within, same)) in
    rw limited (omega (arith, spent, same), same' ∙ same)

-- What calls leave for those after them.
abbrev Leaves : ℕ → ℕ → List (ℕ × ℕ) → SendRateLimiter → Type 0
Leaves burst rate later s =
    IsWithin burst s × (s.rate_bytes_per_sec ≡ rate) × AreCalls s.last_refill later

run-Leaves :
    (hz : ℕ) (earlier later : List (ℕ × ℕ)) (s : SendRateLimiter)
    → (s.rate_bytes_per_sec == 0) ≡ false
    → s.tokens ≤ s.burst_bytes
    → AreCalls s.last_refill (earlier ++ later)
    → Leaves s.burst_bytes s.rate_bytes_per_sec later (run hz earlier s).1
unfolding run
run-Leaves hz [] later s limited full h = ((full, refl), refl, h)
run-Leaves hz ((now, bytes) ∷ rest) later s limited full h =
    let one = try_acquire hz now bytes s in
    let ((rate, forward, paid), past) = try_acquire-Pays hz now bytes s h.0 h.1 limited in
    let (within, same) = try_acquire-IsWithin hz now bytes s limited full in
    let ((tokens, burst), rate', calls) =
      run-Leaves hz rest later one.1 (ap (λ t. t == 0) rate ∙ limited) (omega (arith, within, same))
        (sooner now one.1.last_refill (rest ++ later) past h.2) in
    ((omega (arith, tokens, same), burst ∙ same), rate' ∙ rate, calls)

-- A limiter with a rate of at least a byte a second, after any calls, the first ones of those at
-- times that do not go back, each for less than 2 ^ 32 bytes: the bytes that the calls after them
-- are granted, times the ticks of a second, are at most the burst times the ticks of a second and
-- the rate times the ticks between the last refill before these calls and the last one in them.
pub granted_bound :
    (hz start rate_bps burst : ℕ) (earlier later : List (ℕ × ℕ))
    → 8 ≤ rate_bps
    → AreCalls start (earlier ++ later)
    → hz * (run hz later (run hz earlier (new start rate_bps burst)).1).0
        + rate_bps / 8 * (run hz earlier (new start rate_bps burst)).1.last_refill
      ≤ hz * burst
        + rate_bps / 8 * (run hz later (run hz earlier (new start rate_bps burst)).1).1.last_refill
granted_bound hz start rate_bps burst earlier later some_rate calls =
    let fresh = new start rate_bps burst in
    let s = (run hz earlier fresh).1 in
    let limited : ((rate_bps / 8) == 0) ≡ false = ground arith in
    let ((tokens, same), rate, calls') =
      run-Leaves hz earlier later fresh limited (omega arith) calls in
    let paid = (run-Pays hz later s (ap (λ t. t == 0) rate ∙ limited) calls').2 in
    let full = mul-le-mul_left hz tokens in
    let before = ap (λ t. t * s.last_refill) rate in
    let after = ap (λ t. t * (run hz later s).1.last_refill) rate in
    omega (arith, paid, full, before, after)
