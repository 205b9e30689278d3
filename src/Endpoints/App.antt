-- ===== src/Endpoints/App.antt =====
-- A request through the whole application of src/factory.py: its middleware in the order in which it
-- stands, the error handlers, and the five routes of src/endpoints.
--
-- Starlette wraps the middleware around the handlers of known errors, and the handler of any other
-- exception around the middleware; in debug mode it answers such an exception itself. Which route a
-- path belongs to is the work of FastAPI: a call here is one that has been routed. The requests by
-- which a browser asks for permission first are answered by the CORS middleware and are no calls.
pub mod Laws
mod Tests
use prd_api_wrapper.Prelude.{
  ℕ, String, Bool, true, false, Option, none, List, [], ◌∷◌, if◌then◌else◌,
}
use prd_api_wrapper.Json.{Json}
use prd_api_wrapper.Errors.Handlers.{RequestState, JsonResponse, Raised, handle_error}
use prd_api_wrapper.Exec.{Result, ok, raised, Exec}
use prd_api_wrapper.RequestId.{dispatch, catch_known}
use prd_api_wrapper.Completion.Models.{CompletionRequest, CompletionResponse}
use prd_api_wrapper.Completion.Upstream.{HttpResponse}
use prd_api_wrapper.Jobs.Models.{JobRequest, JobAccepted, JobView}
use prd_api_wrapper.Auth.Service.{Credentials}
use prd_api_wrapper.Config.{Application, Cors, Middleware, Endpoint, Route}
use prd_api_wrapper.Endpoints.{AppState, Api, Body, Task, complete, submit, show, route}
use prd_api_wrapper.Endpoints.Health.{health, ready}

-- What the libraries do around the routes: `with_cors` adds its headers to an answer, the encodings
-- are those of the response models, and `execute` and `get` are the two calls of the readiness check.
pub record Libraries (W : Type 0) : Type 0 where
  pub with_cors : Cors → JsonResponse → JsonResponse
  pub debug_response : Raised → JsonResponse
  pub encode_completion : CompletionResponse → Json
  pub encode_accepted : JobAccepted × Task → Json
  pub encode_view : JobView → Json
  pub execute : Exec (AppState W) (Unit {0})
  pub get : Exec (AppState W) HttpResponse

-- A call of a route that wants a key.
pub data Keyed : Type 0 where
  completes : Body CompletionRequest → Keyed
  submits : Body JobRequest → Keyed
  shows : String → Keyed

pub data Call : Type 0 where
  at_health at_ready : Call
  keyed : Option Credentials → Keyed → Call

abbrev pub same_endpoint : Endpoint → Endpoint → Bool
same_endpoint Endpoint.health Endpoint.health = true
same_endpoint Endpoint.ready Endpoint.ready = true
same_endpoint Endpoint.complete Endpoint.complete = true
same_endpoint Endpoint.submit Endpoint.submit = true
same_endpoint Endpoint.show Endpoint.show = true
same_endpoint _ _ = false

-- The status that the decorator of an endpoint gives.
abbrev pub status_of : Endpoint → List Route → ℕ
status_of e [] = 404
status_of e (r ∷ rs) =
    let rest = status_of e rs in if same_endpoint r.endpoint e then r.status_code else rest

module _ {W : Type 0} (lib : Libraries W) where
  abbrev pub Handler : Type 0
  Handler = Exec (RequestState × AppState W) JsonResponse

  abbrev plain : ℕ → Json → JsonResponse
  plain status content = record { status_code = status; content = content; headers = none }

  abbrev answered : Result (ℕ × Json) → Result JsonResponse
  answered (ok (status, content)) = ok (plain status content)
  answered (raised r) = raised r

  unfoldable pub handle : Api W → List Route → Call → Handler
  unfolding ready
  handle a routes at_health s = (ok (plain (status_of Endpoint.health routes) health), s)
  handle a routes at_ready (request, shared) =
      let (r, t) = ready lib.execute lib.get shared in (answered r, (request, t))
  handle a routes (keyed given (completes body)) s =
      route (status_of Endpoint.complete routes) lib.encode_completion (complete a given body) s
  handle a routes (keyed given (submits body)) s =
      route (status_of Endpoint.submit routes) lib.encode_accepted (submit a given body) s
  handle a routes (keyed given (shows job_id)) s =
      route (status_of Endpoint.show routes) lib.encode_view (show a given job_id) s

  abbrev pub decorated :
      (JsonResponse → JsonResponse)
      → Result JsonResponse × (RequestState × AppState W)
      → Result JsonResponse × (RequestState × AppState W)
  decorated f (ok response, s) = (ok (f response), s)
  decorated f (raised r, s) = (raised r, s)

  -- `fresh` is the new id of the request, `header` the one that it brings.
  abbrev pub wrap : String → Option String → Middleware → Handler → Handler
  wrap fresh header Middleware.request_id next s = dispatch fresh header next s
  wrap fresh header (Middleware.cors o) next s = decorated (lib.with_cors o) (next s)

  abbrev pub stack : String → Option String → List Middleware → Handler → Handler
  stack fresh header [] next = next
  stack fresh header (m ∷ ms) next = wrap fresh header m (stack fresh header ms next)

  -- Any exception that is left.
  abbrev pub last_resort :
      Bool → Result JsonResponse × (RequestState × AppState W) → JsonResponse × AppState W
  last_resort debug (ok response, s) = (response, s.1)
  last_resort debug (raised r, s) =
      (if debug then lib.debug_response r else handle_error s.0 r, s.1)

  unfoldable pub serve_app :
      {S : Type 0}
      → Application S
      → String
      → Option String
      → Handler
      → RequestState × AppState W
      → JsonResponse × AppState W
  unfolding dispatch
  serve_app app fresh header handler request =
      last_resort app.built.debug
        (stack fresh header app.built.middleware (λ s. catch_known (handler s)) request)
