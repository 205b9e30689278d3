-- ===== src/Completion/Laws.antt =====
-- How src/services/completion.py reports what the provider answers.
pub mod Guard
pub mod Calls
pub mod Frame
pub mod Reading
use prd_api_wrapper.Prelude.{
  ℕ, ◌≤◌, ◌≡◌, ◌≢◌, refl, ◌⊎◌, inl, inr, Bool, true, false, ◌||◌, Option, none, some, arith, String,
  leb, ◌==◌, Bool-cases, if◌then◌else◌,
}
use prd_api_wrapper.Json.{Json, Entries, obj, nat, member, get_entry}
use prd_api_wrapper.Errors.{
  AppError, ErrorClass, class_status, class_message, class_retryable, new, no_args,
}
use prd_api_wrapper.Errors.Handlers.{Raised, app, crash, invalid_request}
use prd_api_wrapper.Exec.{Result, ok, raised}
use prd_api_wrapper.Completion.Models.{CompletionResponse}
use prd_api_wrapper.Completion.Upstream.{
  HttpResponse, Runtime, as_app_error, upstream_message, retry_after_seconds, to_response,
  response_of, usage_of, usage_field, first,
}
use prd_api_wrapper.Completion.Service.{
  Posted, answered, timed_out, unreachable, failed, read_posted, handle_response, body_result,
}

-- An error response of the provider, of status 400 or above, is worth repeating exactly when it is
-- a 429 or a server error, and no such response makes us answer 401. For a 401, a 403 or a server
-- error the message is the generic one of its class, whatever the provider says.
pub as_app_error_policy :
    (rt : Runtime) (response : HttpResponse) (model : String)
    → 400 ≤ response.status_code
    → let e = as_app_error rt response model in
      (e.retryable ≡ (response.status_code == 429 || leb 500 response.status_code))
      × (class_status e.kind ≢ 401)
      × ((response.status_code == 401
              || response.status_code == 403
              || leb 500 response.status_code)
            ≡ true
          → e.message ≡ class_message e.kind)
unfolding as_app_error class_retryable class_status class_message
as_app_error_policy rt response model h = (ground arith, λ x. ground arith, λ x. ground arith)

pub to_response_app :
    (rt : Runtime) (v : Json) (r : Raised)
    → to_response rt v ≡ raised r
    → r ≡ app (new ErrorClass.invalid_upstream_response no_args)
unfolding to_response
to_response_app rt (obj fs) r h = ground arith
to_response_app rt _ r h = ground arith

body_app :
    (rt : Runtime) (body : Option Json) (r : Raised)
    → body_result rt body ≡ raised r
    → r ≡ app (new ErrorClass.invalid_upstream_response no_args)
body_app rt none r h = ground arith
body_app rt (some v) r h = to_response_app rt v r h

handle_response_app :
    (rt : Runtime) (model : String) (response : HttpResponse) (r : Raised)
    → handle_response rt model response ≡ raised r
    → (e : AppError) × (r ≡ app e)
handle_response_app rt model response r h = elim (Bool-cases response.is_error) [
  | inl bad ↦ (as_app_error rt response model, ground arith)
  | inr good ↦
      (new ErrorClass.invalid_upstream_response no_args, body_app rt response.body r (ground arith))
]

-- Every outcome of a post that `httpx` is documented to have, and every body, gives a response or
-- an error of ours. Nothing else is raised unless the client raised it.
pub read_posted_crash :
    (rt : Runtime) (model : String) (posted : Posted) (r : Raised)
    → read_posted rt model posted ≡ raised r
    → ((e : AppError) × (r ≡ app e)) ⊎ ((text : String) × (r ≡ crash text) × (posted ≡ failed text))
unfolding read_posted
read_posted_crash rt model (answered response) r h = inl (handle_response_app rt model response r h)
read_posted_crash rt model timed_out r h =
    inl (new ErrorClass.upstream_timeout no_args, ground arith)
read_posted_crash rt model unreachable r h =
    inl (new ErrorClass.upstream_unavailable no_args, ground arith)
read_posted_crash rt model (failed text) r h = inr (text, ground arith, refl)
