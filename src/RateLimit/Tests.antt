-- ===== src/RateLimit/Tests.antt =====
-- Tests of the token bucket and of the rate limit dependency, and their theorems at concrete
-- inputs.
use prd_api_wrapper.Prelude.{
  ℕ, ◌+◌, ◌-◌, ◌*◌, ◌≤◌, ◌≡◌, refl, true, false, none, [], ◌∷◌, arith, String, List, str_eq, eq_iff,
  Bool-cases, inl, inr,
}
use mathlib.Core.Quot
use prd_api_wrapper.Prelude.Dict.{lookup}
use prd_api_wrapper.Errors.Handlers.{RequestState}
use prd_api_wrapper.Exec.{ok}
use prd_api_wrapper.RateLimit.Bucket
use prd_api_wrapper.RateLimit.Bucket.{
  Rate, RateLimitDecision, TokenBucket, take, refill, full, ceil_seconds,
}
use prd_api_wrapper.RateLimit.Bucket.Laws.{was_allowed}
use prd_api_wrapper.RateLimit.Bucket.Wait.{retry_after_suffices}
use prd_api_wrapper.RateLimit.Limiter
use prd_api_wrapper.RateLimit.Limiter.{InMemoryRateLimiter, check, bucket_for}
use prd_api_wrapper.RateLimit.Limiter.Laws.{
  answers_for, answers_alone, times_of, count_allowed, answers_for-eq-alone, caller_bound,
}
use prd_api_wrapper.RateLimit.Limiter.Order.{check_all, check_all_interleaved}
use prd_api_wrapper.RateLimit.Enforce.{RateState}

-- 60 requests a minute.
abbrev one_per_second : Rate
one_per_second = record { gained = 60; per = 60_000_000_000 }

abbrev empty_bucket : TokenBucket
empty_bucket = record { capacity = 2; rate = one_per_second; tokens = 0; updated_at = 0 }

-- A refusal a quarter of a second after the bucket was empty.
abbrev refused : RateLimitDecision
refused = record {
  allowed = false;
  limit = 2;
  remaining = 0;
  reset_after = record { num = 105_000_000_000; den = 60 };
  retry_after = record { num = 45_000_000_000; den = 60 };
}

take_refuses : (take 1 250_000_000 empty_bucket).0 ≡ ok refused
unfolding take
take_refuses = refl

retry_after_suffices_example :
    was_allowed (take 1 1_250_000_000 (take 1 250_000_000 empty_bucket).1).0 ≡ 1
unfolding ceil_seconds
retry_after_suffices_example =
    retry_after_suffices 250_000_000 1_250_000_000 empty_bucket refused (omega arith) take_refuses
      refl (omega arith)

abbrev checks : List (String × ℕ)
checks = ("ann", 1) ∷ ("bob", 2) ∷ ("ann", 3) ∷ []

-- The same with the check of the second caller first.
abbrev bob_first : List (String × ℕ)
bob_first = ("bob", 2) ∷ ("ann", 1) ∷ ("ann", 3) ∷ []

bob_first-times_of : (key : String) → times_of key checks ≡ times_of key bob_first
unfolding times_of
bob_first-times_of key = elim (Bool-cases (str_eq "bob" key)) [
  | inl same ↦ rw⁻¹ ((eq_iff "bob" key).0 same) refl
  | inr other ↦ rw other refl
]

check_all_interleaved_example :
    let l = Limiter.init 2 one_per_second in
    (check_all checks (Quot.mk l) ≡ check_all bob_first (Quot.mk l))
    × ((key : String) → answers_for key checks l ≡ answers_for key bob_first l)
check_all_interleaved_example =
    check_all_interleaved checks bob_first (Limiter.init 2 one_per_second) bob_first-times_of

answers_for-eq-alone_example :
    answers_for "ann" checks (Limiter.init 2 one_per_second)
    ≡ answers_alone
        (Limiter.init 2 one_per_second).capacity
        (Limiter.init 2 one_per_second).rate
        (times_of "ann" checks)
        (lookup "ann" (Limiter.init 2 one_per_second).buckets)
answers_for-eq-alone_example = answers_for-eq-alone "ann" checks (Limiter.init 2 one_per_second)

caller_bound_example :
    count_allowed (answers_for "ann" checks (Limiter.init 2 one_per_second)) * 60_000_000_000
    ≤ 2 * 60_000_000_000 + (9 - 1) * 60
unfolding times_of
caller_bound_example = caller_bound "ann" checks 2 one_per_second 1 9 (3 ∷ []) refl (omega arith)

abbrev fresh_request : RequestState
fresh_request = record { request_id = none; response_headers = none }

abbrev rate_state : RateState
rate_state = record {
  limiter = record { capacity = 2; rate = one_per_second; buckets = ("ann", empty_bucket) ∷ [] };
  response = ("Server", "uvicorn") ∷ [];
  request = fresh_request;
}

check_refuses : (check "ann" 250_000_000 rate_state.limiter).0 ≡ ok refused
unfolding check take lookup
check_refuses = refl

abbrev passed : RateLimitDecision
passed = record {
  allowed = true;
  limit = 2;
  remaining = 1;
  reset_after = record { num = 60_000_000_000; den = 60 };
  retry_after = record { num = 0; den = 1 };
}

check_passes : (check "bob" 5 rate_state.limiter).0 ≡ ok passed
unfolding check take lookup Bucket.init
check_passes = refl

abbrev stopped : RateState
stopped = record rate_state {
  limiter = record { capacity = 2; rate = record { gained = 0; per = 60 }; buckets = [] };
}
