-- ===== src/RateLimit/Enforce/Laws.antt =====
-- What a client sees of its allowance, as src/dependencies/rate_limit.py and the error handler
-- tell it.
use prd_api_wrapper.Prelude.{ℕ, ◌≡◌, refl, true, false, some, arith, String, show}
use prd_api_wrapper.Prelude.Dict.{lookup, insert, merge, or_else, IsDict, lookup-merge}
use prd_api_wrapper.Errors.{AppError, new, or_empty}
use prd_api_wrapper.Errors.Handlers.{
  RequestState, Raised, app, crash, handle_error, collected_headers,
}
use prd_api_wrapper.Errors.Laws.{app_error_handler_headers}
use prd_api_wrapper.Exec.{ok, raised}
use prd_api_wrapper.RateLimit.Bucket.{RateLimitDecision, ceil_seconds, take}
use prd_api_wrapper.RateLimit.Limiter.{check, bucket_for}
use prd_api_wrapper.RateLimit.Enforce.{RateState, headers, refusal, enforce_rate_limit}

refusal-IsDict : (d : RateLimitDecision) → IsDict (refusal d).headers
unfolding refusal new merge insert lookup
refusal-IsDict d = (refl, (refl, (refl, (refl, tt))))

-- A request over the allowance is answered with 429, with the caller's allowance and with the wait
-- in whole seconds, whatever else the request collected.
pub refusal_response :
    (request : RequestState) (d : RateLimitDecision)
    → let response = handle_error request (Raised.app (refusal d)) in
      (response.status_code ≡ 429)
      × (lookup "Retry-After" (or_empty response.headers)
          ≡ some (show (ceil_seconds d.retry_after)))
      × (lookup "X-RateLimit-Limit" (or_empty response.headers) ≡ some (show d.limit))
      × (lookup "X-RateLimit-Remaining" (or_empty response.headers) ≡ some (show d.remaining))
      × (lookup "X-RateLimit-Reset" (or_empty response.headers)
          ≡ some (show (ceil_seconds d.reset_after)))
refusal_response request d =
    let at =
      λ (name : String). app_error_handler_headers request (refusal d) name (refusal-IsDict d) in
    unfold handle_error refusal new merge insert lookup headers in
    (
      refl,
      at "Retry-After",
      at "X-RateLimit-Limit",
      at "X-RateLimit-Remaining",
      at "X-RateLimit-Reset",
    )

headers-IsDict : (d : RateLimitDecision) → IsDict (headers d)
unfolding headers lookup
headers-IsDict d = (refl, (refl, (refl, tt)))

enforce_allowed :
    (caller_id : String) (now : ℕ) (s : RateState) (d : RateLimitDecision)
    → (check caller_id now s.limiter).0 ≡ ok d
    → d.allowed ≡ true
    → enforce_rate_limit true caller_id now s ≡ (
      ok tt,
      record s {
        limiter = (check caller_id now s.limiter).1;
        response = merge s.response (headers d);
        request = record s.request { response_headers = some (headers d) };
      },
    )
unfolding enforce_rate_limit
enforce_allowed caller_id now s d e f = ground arith

-- With the limit on, a request that its caller's bucket lets through passes, and then the caller's
-- allowance is on the response and is kept for a failure further on: whatever error of ours
-- follows, its response shows the allowance too, unless the error has a header of that name (its
-- headers name no key twice).
pub enforce_passes :
    (caller_id : String) (now : ℕ) (s : RateState) (d : RateLimitDecision)
    → (check caller_id now s.limiter).0 ≡ ok d
    → d.allowed ≡ true
    → let (r, s') = enforce_rate_limit true caller_id now s in
      (r ≡ ok tt)
      × ((name : String)
          → lookup name s'.response ≡ or_else (lookup name (headers d)) (lookup name s.response))
      × ((e : AppError) (name : String)
          → IsDict e.headers
          → lookup name (or_empty (handle_error s'.request (Raised.app e)).headers)
            ≡ or_else (lookup name e.headers) (lookup name (headers d)))
enforce_passes caller_id now s d e f = rw (enforce_allowed caller_id now s d e f) (
  refl,
  λ name. lookup-merge name s.response (headers d) (headers-IsDict d),
  λ err name h.
      unfold handle_error collected_headers in
      app_error_handler_headers (record s.request { response_headers = some (headers d) }) err name
        h,
)

-- With the limit on, a request that its caller's bucket refuses fails with the refusal, and has
-- changed nothing but the limiter.
pub enforce_refuses :
    (caller_id : String) (now : ℕ) (s : RateState) (d : RateLimitDecision)
    → (check caller_id now s.limiter).0 ≡ ok d
    → d.allowed ≡ false
    → enforce_rate_limit true caller_id now s
      ≡ (raised (app (refusal d)), record s { limiter = (check caller_id now s.limiter).1 })
unfolding enforce_rate_limit
enforce_refuses caller_id now s d e f = ground arith

-- Known defect: nothing keeps the configured rate from being zero. Where the bucket of a caller
-- gains nothing, every check of it raises, and the request is answered with the generic 500.
pub zero_rate_fails :
    (caller_id : String) (now : ℕ) (s : RateState)
    → (bucket_for s.limiter.capacity s.limiter.rate now
        (lookup caller_id s.limiter.buckets)).rate.gained
      ≡ 0
    → let (r, s') = enforce_rate_limit true caller_id now s in
      (r ≡ raised (crash "ZeroDivisionError"))
      × ((handle_error s'.request (Raised.crash "ZeroDivisionError")).status_code ≡ 500)
zero_rate_fails caller_id now s h =
    unfold enforce_rate_limit check take handle_error in (ground arith, ground arith)
