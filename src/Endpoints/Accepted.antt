-- ===== src/Endpoints/Accepted.antt =====
-- What the routes of src/endpoints/completion.py and src/endpoints/jobs.py make of a request that is
-- let through.
use prd_api_wrapper.Prelude.{String, ◌≡◌, refl, true, Option, some, or_default, ℕ, show as show_nat}
use prd_api_wrapper.Prelude.Dict.{lookup, insert, merge}
use prd_api_wrapper.Json.{Json}
use prd_api_wrapper.Errors.{class_status, or_empty}
use prd_api_wrapper.Errors.Handlers.{RequestState, JsonResponse}
use prd_api_wrapper.Errors.Laws.{class_of_raised}
use prd_api_wrapper.Exec.{Result, ok, raised, Exec, continue}
use prd_api_wrapper.RateLimit.Bucket.{RateLimitDecision}
use prd_api_wrapper.RateLimit.Enforce.{headers}
use prd_api_wrapper.Completion.Models.{CompletionRequest, CompletionResponse}
use prd_api_wrapper.Jobs.Models.{JobRequest, JobAccepted}
use prd_api_wrapper.Auth.Keys.{ApiKey, touch}
use prd_api_wrapper.Auth.Service.{Credentials}
use prd_api_wrapper.RequestId.{serve, chosen_id}
use prd_api_wrapper.Endpoints.{AppState, Context, Api, valid, Task, complete, submit, route, queued}
use prd_api_wrapper.Endpoints.Closing.{open_request, Gives, serve_raised, serve_ok}
use prd_api_wrapper.Endpoints.Steps.{
  caller_of_key, IsAdmitted, get_caller-admitted, noted, charged, decision, limit-allowed,
  allowed_context,
}
use prd_api_wrapper.Endpoints.Laws.{served_complete, served_submit}

module _ {W : Type 0} (a : Api W) where
  module _ (fresh : String) (header : Option String) (request : RequestState)
      (shared : AppState W) where
    -- What a route leaves and answers, when its service has ended so, with this allowance.
    abbrev pub Follows :
        {A : Type 0}
        → ℕ
        → (A → Json)
        → ApiKey
        → RateLimitDecision
        → Result A
        → AppState W
        → JsonResponse × AppState W
        → Type 0
    Follows status encode k d (ok v) after o =
        Gives status (record after { keys = touch k.id (a.now shared) after.keys }) o
        × (o.0.content ≡ encode v)
        × (lookup "X-RateLimit-Limit" (or_empty o.0.headers) ≡ some (show_nat d.limit))
        × (lookup "X-RateLimit-Remaining" (or_empty o.0.headers) ≡ some (show_nat d.remaining))
    Follows status encode k d (raised r) after o = Gives (class_status (class_of_raised r)) after o

    followed :
        {A : Type 0} (status : ℕ) (f : Exec (Context W) A) (encode : A → Json) (k : ApiKey)
        (d : RateLimitDecision) (r : Result A) (after : AppState W)
        → let s = open_request fresh header request shared in
          f s ≡ (r, record (allowed_context a k d (noted a k s)) { shared = after })
          → Follows status encode k d r after
              (serve fresh header (route status encode f) (request, shared))
    unfolding headers merge insert lookup
    followed status f encode k d (ok v) after e =
        let t =
          record (allowed_context a k d (noted a k (open_request fresh header request shared))) {
            shared = after;
          } in
        let (gives, content, others) = serve_ok status encode fresh header f request shared v t e in
        (gives, content, others "X-RateLimit-Limit" refl, others "X-RateLimit-Remaining" refl)
    followed status f encode k d (raised r) after e =
        let t =
          record (allowed_context a k d (noted a k (open_request fresh header request shared))) {
            shared = after;
          } in
        serve_raised status encode fresh header f request shared r t
          (class_status (class_of_raised r)) e refl

    -- Where requests are limited, a valid completion of an active key within its allowance is
    -- answered as the service answers it, after one token was spent. An answer is a 200 with the
    -- caller's allowance in its headers, and notes the use of the key; an error has the status of
    -- its class, and drops that note while it keeps all that the service did.
    pub complete-Follows :
        (given : Credentials) (k : ApiKey) (d : RateLimitDecision) (payload : CompletionRequest)
        (encode : CompletionResponse → Json)
        → a.rate_limit_enabled ≡ true
        → IsAdmitted a given k shared
        → decision a k shared ≡ ok d
        → d.allowed ≡ true
        → let (r, after) = a.complete payload (caller_of_key a k) (charged a k shared) in
          Follows 200 encode k d r after
            (served_complete a fresh header request shared encode (some given) (valid payload))
    unfolding complete
    complete-Follows given k d payload encode on h e more =
        let s = open_request fresh header request shared in
        let admitted = get_caller-admitted a given k s h in
        let passed = limit-allowed a k (noted a k s) d on e more in
        let o = a.complete payload (caller_of_key a k) (charged a k shared) in
        followed 200 (complete a (some given) (valid payload)) encode k d o.0 o.1
          (rw (admitted, passed) refl)

    -- The task that is queued for a job that was accepted.
    abbrev pub with_task : ApiKey → JobRequest → Result JobAccepted → Result (JobAccepted × Task)
    with_task k payload (ok accepted) = ok (
      accepted,
      record {
        job_id = accepted.id;
        payload = payload;
        caller = caller_of_key a k;
        request_id = some (chosen_id header fresh);
      },
    )
    with_task k payload (raised r) = raised r

    queued_after :
        (k : ApiKey) (d : RateLimitDecision) (payload : JobRequest) (r : Result JobAccepted)
        (after : AppState W)
        → let s = allowed_context a k d (noted a k (open_request fresh header request shared)) in
          let t = record s { shared = after } in
          continue r (queued payload (caller_of_key a k)) t ≡ (with_task k payload r, t)
    queued_after k d payload (ok accepted) after = refl
    queued_after k d payload (raised e) after = refl

    -- Where requests are limited, a valid job of an active key within its allowance is answered as
    -- the service accepts it, after one token was spent: with a 202, and a task for the same job,
    -- caller and id of the request, and the use of the key is noted; or with the status of the error,
    -- and no task.
    pub submit-Follows :
        (given : Credentials) (k : ApiKey) (d : RateLimitDecision) (payload : JobRequest)
        (encode : JobAccepted × Task → Json)
        → a.rate_limit_enabled ≡ true
        → IsAdmitted a given k shared
        → decision a k shared ≡ ok d
        → d.allowed ≡ true
        → let (r, after) =
            a.accept payload
              (caller_of_key a k)
              (or_default payload.model a.upstream_model)
              (charged a k shared) in
          Follows 202 encode k d
            (with_task k payload r)
            after
            (served_submit a fresh header request shared encode (some given) (valid payload))
    unfolding submit
    submit-Follows given k d payload encode on h e more =
        let s = open_request fresh header request shared in
        let admitted = get_caller-admitted a given k s h in
        let passed = limit-allowed a k (noted a k s) d on e more in
        let o =
          a.accept payload (caller_of_key a k) (or_default payload.model a.upstream_model)
            (charged a k shared) in
        followed 202 (submit a (some given) (valid payload)) encode k d (with_task k payload o.0)
          o.1 (rw (admitted, passed) (queued_after k d payload o.0 o.1))
