-- ===== src/RateLimit/Bucket/Wait.antt =====
-- The waits that a decision of src/services/rate_limiter.py announces are exact.
use prd_api_wrapper.Prelude.{
  ℕ, ◌+◌, ◌-◌, ◌*◌, ◌/◌, ◌≤◌, ◌<◌, ◌≡◌, ◌↔◌, false, arith, leb, if◌then◌else◌,
}
use prd_api_wrapper.Time.{ticks_per_second}
use prd_api_wrapper.Exec.{ok}
use prd_api_wrapper.RateLimit.Bucket.{
  RateLimitDecision, TokenBucket, full, refill, take, ceil_seconds,
}
use prd_api_wrapper.RateLimit.Bucket.Laws.{was_allowed, take_fields, take-IsValid}

-- What a refusal leaves behind.
refusal :
    (now : ℕ) (b : TokenBucket) (d : RateLimitDecision)
    → (take 1 now b).0 ≡ ok d
    → d.allowed ≡ false
    → ((take 1 now b).1.tokens < b.rate.per)
      × (d.retry_after.num ≡ b.rate.per - (take 1 now b).1.tokens)
      × (d.retry_after.den ≡ b.rate.gained)
      × (0 < b.rate.gained)
unfolding take
refusal now b d e f = ground arith

-- Whether a bucket pays for one token.
take_allowed :
    (now : ℕ) (b : TokenBucket)
    → 0 < b.rate.gained
    → 1 ≤ b.capacity
    → was_allowed (take 1 now b).0
      ≡ (if leb b.rate.per (b.tokens + (now - b.updated_at) * b.rate.gained) then 1 else 0)
unfolding take
take_allowed now b pos cap = let room : b.rate.per ≤ full b = grind arith in ground arith

-- After a refusal by a bucket of at least one token, with nothing charged in between, the caller is
-- served again exactly from the announced wait on: not a tick earlier, and never refused after it.
pub refused_until :
    (now later : ℕ) (b : TokenBucket) (d : RateLimitDecision)
    → 1 ≤ b.capacity
    → (take 1 now b).0 ≡ ok d
    → d.allowed ≡ false
    → was_allowed (take 1 later (take 1 now b).1).0
      ≡ (if leb d.retry_after.num ((later - now) * d.retry_after.den) then 1 else 0)
refused_until now later b d cap e f =
    let (short, num, den, pos) = refusal now b d e f in
    let (c, r, u) = take_fields 1 now b in
    rw (take_allowed later (take 1 now b).1 (rw r pos) (rw c cap)) (rw (r, u, den) (ground arith))

ceil-ge : (num m : ℕ) → 0 < m → num ≤ (num + m - 1) / m * m
ceil-ge num m h = grind arith

mul-le : (a b c : ℕ) → b ≤ a → b * c ≤ a * c
mul-le a b c h = grind arith

-- A caller that a bucket of at least one token refused, and that waits for the whole seconds that
-- `Retry-After` announces, is served, if nothing was charged in between.
pub retry_after_suffices :
    (now later : ℕ) (b : TokenBucket) (d : RateLimitDecision)
    → 1 ≤ b.capacity
    → (take 1 now b).0 ≡ ok d
    → d.allowed ≡ false
    → now + ceil_seconds d.retry_after * ticks_per_second ≤ later
    → was_allowed (take 1 later (take 1 now b).1).0 ≡ 1
unfolding ceil_seconds
retry_after_suffices now later b d cap e f wait =
    let (short, num, den, pos) = refusal now b d e f in
    let gap : ceil_seconds d.retry_after * ticks_per_second ≤ later - now = omega arith in
    let long =
      mul-le (later - now) (ceil_seconds d.retry_after * ticks_per_second) d.retry_after.den gap in
    let up = ceil-ge d.retry_after.num (d.retry_after.den * ticks_per_second) (omega arith) in
    rw (refused_until now later b d cap e f) (ground arith)

reset_fields :
    (now : ℕ) (b : TokenBucket) (d : RateLimitDecision)
    → (take 1 now b).0 ≡ ok d
    → (d.reset_after.num ≡ full b - (take 1 now b).1.tokens) × (d.reset_after.den ≡ b.rate.gained)
unfolding take
reset_fields now b d e = ground arith

-- After a check that was answered, and without further charges, the bucket is full again exactly
-- from the announced reset on.
pub full_after_reset :
    (now later : ℕ) (b : TokenBucket) (d : RateLimitDecision)
    → (take 1 now b).0 ≡ ok d
    → ((refill later (take 1 now b).1).tokens ≡ full b)
      ↔ (d.reset_after.num ≤ (later - now) * d.reset_after.den)
full_after_reset now later b d e =
    let (c, r, u) = take_fields 1 now b in
    let (num, den) = reset_fields now b d e in
    let fits = take-IsValid 1 now b in unfold refill in (λ h. ground arith, λ h. ground arith)
