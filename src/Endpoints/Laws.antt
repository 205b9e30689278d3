-- ===== src/Endpoints/Laws.antt =====
-- What each way through src/endpoints/completion.py and src/endpoints/jobs.py answers and leaves
-- behind.
use prd_api_wrapper.Prelude.{String, ◌≡◌, refl, true, false, Option, some}
use prd_api_wrapper.Json.{Json}
use prd_api_wrapper.Errors.{class_status}
use prd_api_wrapper.Errors.Handlers.{RequestState, JsonResponse, app, invalid_request}
use prd_api_wrapper.Exec.{ok}
use prd_api_wrapper.RateLimit.Bucket.{RateLimitDecision}
use prd_api_wrapper.RateLimit.Enforce.{refusal}
use prd_api_wrapper.Completion.Models.{CompletionRequest, CompletionResponse}
use prd_api_wrapper.Jobs.Models.{JobRequest, JobAccepted}
use prd_api_wrapper.Auth.Keys.{ApiKey}
use prd_api_wrapper.Auth.Service.{Credentials}
use prd_api_wrapper.RequestId.{serve}
use prd_api_wrapper.Endpoints.{
  AppState, Api, Body, invalid, not_json, Task, complete, submit, route,
}
use prd_api_wrapper.Endpoints.Closing.{open_request, Gives, serve_raised}
use prd_api_wrapper.Endpoints.Steps.{
  IsJson, parse_body-IsJson, refusal_status, IsAdmitted, get_caller-admitted, noted, charged,
  decision, limit-refused, limit-allowed, allowed_context,
}

module _ {W : Type 0} (a : Api W) where
  module _ (fresh : String) (header : Option String) (request : RequestState)
      (shared : AppState W) where
    -- What the two routes that take a body answer a client with, and what they leave of the state.
    abbrev pub served_complete :
        (CompletionResponse → Json)
        → Option Credentials
        → Body CompletionRequest
        → JsonResponse × AppState W
    served_complete encode given body =
        serve fresh header (route 200 encode (complete a given body)) (request, shared)

    abbrev pub served_submit :
        (JobAccepted × Task → Json)
        → Option Credentials
        → Body JobRequest
        → JsonResponse × AppState W
    served_submit encode given body =
        serve fresh header (route 202 encode (submit a given body)) (request, shared)

    -- Where requests are limited, a request of an active key whose bucket is empty gets a 429 from
    -- the two routes that are limited, if its body is JSON, whatever its fields are, and leaves
    -- nothing but the limiter's count: no service is called, and the use of the key is not noted.
    pub refused_untouched :
        (given : Credentials) (k : ApiKey) (d : RateLimitDecision) (body : Body CompletionRequest)
        (job : Body JobRequest) (encode : CompletionResponse → Json)
        (encode_job : JobAccepted × Task → Json)
        → a.rate_limit_enabled ≡ true
        → IsAdmitted a given k shared
        → decision a k shared ≡ ok d
        → d.allowed ≡ false
        → IsJson body
        → IsJson job
        → Gives 429 (charged a k shared) (served_complete encode (some given) body)
          × Gives 429 (charged a k shared) (served_submit encode_job (some given) job)
    unfolding complete submit
    refused_untouched given k d body job encode encode_job on h e no_more is_json is_json' =
        let s = open_request fresh header request shared in
        let admitted = get_caller-admitted a given k s h in
        let refused = limit-refused a k (noted a k s) d on e no_more in
        let r = app (refusal d) in
        let t = record (noted a k s) { shared = charged a k shared } in
        (
          serve_raised 200 encode fresh header (complete a (some given) body) request shared r t 429
              (rw (parse_body-IsJson body s is_json, admitted, refused) refl) (refusal_status d),
          serve_raised 202 encode_job fresh header (submit a (some given) job) request shared r t
              429 (rw (parse_body-IsJson job s is_json', admitted, refused) refl)
              (refusal_status d),
        )

    -- Where requests are limited, a request of an active key that is within its allowance spends a
    -- token before the fields of its body are checked: a body in JSON that the model refuses gets a
    -- 422 from the two routes that take one, and leaves the token spent; no service is called, and
    -- the use of the key is not noted. A body that is not JSON gets its 422 before all that, and
    -- leaves everything as it was.
    pub invalid_charged :
        (given : Credentials) (k : ApiKey) (d : RateLimitDecision) (errors : Json)
        (encode : CompletionResponse → Json) (encode_job : JobAccepted × Task → Json)
        → a.rate_limit_enabled ≡ true
        → IsAdmitted a given k shared
        → decision a k shared ≡ ok d
        → d.allowed ≡ true
        → Gives 422 (charged a k shared) (served_complete encode (some given) (invalid errors))
          × Gives 422 (charged a k shared) (served_submit encode_job (some given) (invalid errors))
          × Gives 422 shared (served_complete encode (some given) (not_json errors))
          × Gives 422 shared (served_submit encode_job (some given) (not_json errors))
    unfolding complete submit class_status
    invalid_charged given k d errors encode encode_job on h e more =
        let s = open_request fresh header request shared in
        let admitted = get_caller-admitted a given k s h in
        let passed = limit-allowed a k (noted a k s) d on e more in
        let r = invalid_request errors in
        let t = allowed_context a k d (noted a k s) in
        (
          serve_raised 200 encode fresh header (complete a (some given) (invalid errors)) request
              shared r t 422 (rw (admitted, passed) refl) refl,
          serve_raised 202 encode_job fresh header (submit a (some given) (invalid errors)) request
              shared r t 422 (rw (admitted, passed) refl) refl,
          serve_raised 200 encode fresh header (complete a (some given) (not_json errors)) request
              shared r s 422 refl refl,
          serve_raised 202 encode_job fresh header (submit a (some given) (not_json errors)) request
              shared r s 422 refl refl,
        )
