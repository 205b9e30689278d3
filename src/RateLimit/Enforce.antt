-- ===== src/RateLimit/Enforce.antt =====
-- src/dependencies/rate_limit.py: the dependency that spends one token for a caller or refuses the
-- request, and what either answer shows to the client.
pub mod Laws
use prd_api_wrapper.Prelude.{ℕ, String, Bool, none, some, [], ◌∷◌, show, if◌then◌else◌}
use prd_api_wrapper.Prelude.Dict.{Dict, merge}
use prd_api_wrapper.Json.{str, nat}
use prd_api_wrapper.Errors.{AppError, ErrorClass, new, no_args}
use prd_api_wrapper.Errors.Handlers.{RequestState, app}
use prd_api_wrapper.Exec.{Result, ok, raised, Exec, ◌>>=◌}
use prd_api_wrapper.RateLimit.Bucket.{RateLimitDecision, ceil_seconds}
use prd_api_wrapper.RateLimit.Limiter.{InMemoryRateLimiter, check}

-- What the dependency reads and writes: the shared limiter, the headers of the response that a
-- route returns, and `request.state`.
pub record RateState : Type 0 where
  pub limiter : InMemoryRateLimiter
  pub response : Dict String
  pub request : RequestState

-- `_headers`
unfoldable pub headers : RateLimitDecision → Dict String
headers d =
    ("X-RateLimit-Limit", show d.limit)
    ∷ ("X-RateLimit-Remaining", show d.remaining)
    ∷ ("X-RateLimit-Reset", show (ceil_seconds d.reset_after))
    ∷ []

unfoldable pub refusal : RateLimitDecision → AppError
unfolding headers
refusal d = new ErrorClass.rate_limit_exceeded (record no_args {
  headers = some (merge (headers d) (("Retry-After", show (ceil_seconds d.retry_after)) ∷ []));
  details = ("limit", nat d.limit) ∷ ("window", str "minute") ∷ [];
})

-- `limiter.check`, on the state of the dependency.
unfoldable pub check_caller : String → ℕ → Exec RateState RateLimitDecision
check_caller caller_id now s =
    let (decision, limiter) = check caller_id now s.limiter in
    (decision, record s { limiter = limiter })

unfoldable pub answer : RateLimitDecision → Exec RateState (Unit {0})
unfolding refusal headers
answer d s =
    if d.allowed
    then (
      ok tt,
      record s {
        response = merge s.response (headers d);
        request = record s.request { response_headers = some (headers d) };
      },
    )
    else (raised (app (refusal d)), s)

-- `enforce_rate_limit`, where `enabled` is `settings.RATE_LIMIT_ENABLED`.
unfoldable pub enforce_rate_limit : Bool → String → ℕ → Exec RateState (Unit {0})
unfolding check_caller answer
enforce_rate_limit enabled caller_id now s =
    if enabled then (do decision ← check_caller caller_id now; answer decision) s else (ok tt, s)
