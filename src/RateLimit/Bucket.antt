-- ===== src/RateLimit/Bucket.antt =====
-- `TokenBucket` of src/services/rate_limiter.py and `RateLimitDecision` of
-- src/models/rate_limit.py.
--
-- Time is a whole number of ticks. The refill rate, a float in the code, is the exact quotient of
-- `gained` tokens and `per` ticks; tokens are counted in units of 1 / `per` of a token, in which
-- every amount that the code computes is whole. `now` is the reading of the clock, which is
-- `time.monotonic`: it never goes back.
pub mod Laws
pub mod Wait
use prd_api_wrapper.Prelude.{ℕ, ◌+◌, ◌-◌, ◌*◌, ◌/◌, min, Bool, ltb, leb, ◌==◌, if◌then◌else◌}
use prd_api_wrapper.Errors.Handlers.{crash}
use prd_api_wrapper.Time.{ticks_per_second}
use prd_api_wrapper.Exec.{Result, ok, raised, Exec}

pub record Rate : Type 0 where
  pub gained : ℕ
  pub per : ℕ

-- A time span of `num / den` ticks.
pub record Span : Type 0 where
  pub num : ℕ
  pub den : ℕ

-- `math.ceil` of a span in seconds.
unfoldable pub ceil_seconds : Span → ℕ
ceil_seconds t = (t.num + t.den * ticks_per_second - 1) / (t.den * ticks_per_second)

pub record RateLimitDecision : Type 0 where
  pub allowed : Bool
  pub limit : ℕ
  pub remaining : ℕ
  pub reset_after : Span
  pub retry_after : Span

pub record TokenBucket : Type 0 where
  pub capacity : ℕ
  pub rate : Rate
  pub tokens : ℕ
  pub updated_at : ℕ

-- The capacity in units of tokens.
abbrev pub full : TokenBucket → ℕ
full b = b.capacity * b.rate.per

unfoldable pub init : ℕ → Rate → ℕ → TokenBucket
init capacity rate now = record {
  capacity = capacity;
  rate = rate;
  tokens = capacity * rate.per;
  updated_at = now;
}

-- `_refill`
unfoldable pub refill : ℕ → TokenBucket → TokenBucket
refill now b = record b {
  tokens = min (full b) (b.tokens + (now - b.updated_at) * b.rate.gained);
  updated_at = now;
}

-- The bucket after the `if allowed` of `take`.
unfoldable pub charge : ℕ → TokenBucket → TokenBucket
charge cost b = if leb cost b.tokens then record b { tokens = b.tokens - cost } else b

abbrev pub decide : ℕ → Bool → TokenBucket → RateLimitDecision
decide cost allowed b = record {
  allowed = allowed;
  limit = b.capacity;
  remaining = b.tokens / b.rate.per;
  reset_after = record { num = full b - b.tokens; den = b.rate.gained };
  retry_after =
      if allowed
      then record { num = 0; den = 1 }
      else record { num = cost - b.tokens; den = b.rate.gained };
}

-- `take(tokens)`. A refill rate of zero makes the division for `reset_after` raise, after the
-- bucket has been charged.
unfoldable pub take : ℕ → ℕ → Exec TokenBucket RateLimitDecision
unfolding refill charge
take tokens now b =
    let filled = refill now b in
    let cost = tokens * b.rate.per in
    let charged = charge cost filled in
    (
      if b.rate.gained == 0
          then raised (crash "ZeroDivisionError")
          else ok (decide cost (leb cost filled.tokens) charged),
      charged,
    )
