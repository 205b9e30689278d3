-- ===== src/RateLimit/Limiter.antt =====
-- `InMemoryRateLimiter` of src/services/rate_limiter.py: a dict of buckets, made at first sight of
-- a caller. A bucket is an object that the dict refers to, so charging it is a write to the dict.
--
-- `now` is the reading of the clock in `check`: `__init__` and `_refill` of a new bucket read it
-- one after the other, and no time passes between them in the model.
pub mod Laws
pub mod Order
use prd_api_wrapper.Prelude.{ℕ, String, Option, none, some, []}
use prd_api_wrapper.Prelude.Dict.{Dict, lookup, insert}
use prd_api_wrapper.Exec.{Result, Exec}
use prd_api_wrapper.RateLimit.Bucket
use prd_api_wrapper.RateLimit.Bucket.{Rate, RateLimitDecision, TokenBucket, take}

pub record InMemoryRateLimiter : Type 0 where
  pub capacity : ℕ
  pub rate : Rate
  pub buckets : Dict TokenBucket

unfoldable pub init : ℕ → Rate → InMemoryRateLimiter
init capacity rate = record { capacity = capacity; rate = rate; buckets = [] }

-- The bucket of a caller, a new one where there is none.
unfoldable pub bucket_for : ℕ → Rate → ℕ → Option TokenBucket → TokenBucket
bucket_for capacity rate now none = Bucket.init capacity rate now
bucket_for capacity rate now (some b) = b

unfoldable pub check : String → ℕ → Exec InMemoryRateLimiter RateLimitDecision
unfolding bucket_for
check key now l =
    let bucket = bucket_for l.capacity l.rate now (lookup key l.buckets) in
    let (decision, charged) = take 1 now bucket in
    (decision, record l { buckets = insert key charged l.buckets })
