-- ===== src/Endpoints.antt =====
-- src/endpoints/completion.py and src/endpoints/jobs.py, with the dependencies that FastAPI solves
-- for them: src/dependencies/auth.py, src/dependencies/rate_limit.py, and the session of
-- src/dependencies/common.py that is opened for the lookup of the key.
--
-- FastAPI reads the body as JSON, solves the dependencies in the order in which they are declared,
-- each once, then checks the fields of the body, and calls the route last; the session is closed when the route has returned or raised.
mod Closing
mod Steps
mod Wiring
pub mod Health
pub mod Laws
pub mod Accepted
pub mod Traffic
pub mod Bodies
pub mod App
mod Tests
use prd_api_wrapper.Prelude.{ℕ, String, Bool, Option, none, some, List, [], ◌∷◌, or_default}
use prd_api_wrapper.Prelude.Dict.{Dict, non_empty_dict}
use prd_api_wrapper.Json.{Json}
use prd_api_wrapper.Errors.Handlers.{RequestState, JsonResponse, Raised, invalid_request}
use prd_api_wrapper.Exec.{Result, ok, raised, Exec, pure, continue, ◌>>=◌, ◌>>◌}
use prd_api_wrapper.RateLimit.Limiter.{InMemoryRateLimiter}
use prd_api_wrapper.RateLimit.Enforce.{RateState, enforce_rate_limit}
use prd_api_wrapper.Completion.Models.{Caller, CompletionRequest, CompletionResponse}
use prd_api_wrapper.Jobs.Models.{JobRequest, JobAccepted, JobView}
use prd_api_wrapper.Prelude.Case.{lower}
use prd_api_wrapper.Auth.Keys.{ApiKey, active_key, touch}
use prd_api_wrapper.Auth.Service.{AuthenticationService, Credentials, get_caller}

-- What requests share: the committed table of keys, the limiter, and what the services keep.
pub record AppState (W : Type 0) : Type 0 where
  pub keys : List ApiKey
  pub limiter : InMemoryRateLimiter
  pub services : W

-- One request: its own state, the headers of its response, and the writes of its session that are
-- not committed.
pub record Context (W : Type 0) : Type 0 where
  pub shared : AppState W
  pub request : RequestState
  pub response : Dict String
  pub pending : List ApiKey → List ApiKey

-- The settings, the clocks and the services. `now` is the seconds of `datetime.now(UTC)`, and
-- `monotonic` the clock of the limiter.
pub record Api (W : Type 0) : Type 0 where
  pub hash_api_key : String → String
  pub require_api_key : Bool
  pub rate_limit_enabled : Bool
  pub upstream_model : String
  pub now : AppState W → ℕ
  pub monotonic : AppState W → ℕ
  pub complete : CompletionRequest → Caller → Exec (AppState W) CompletionResponse
  pub accept : JobRequest → Caller → String → Exec (AppState W) JobAccepted
  pub get : String → Caller → Exec (AppState W) JobView

-- A body as the models of src/models/completion.py and src/models/job.py take it, or one that they
-- refuse with the list of what is wrong, or one that is not JSON, with the error of the parser.
-- Bytes that are no text in a Unicode encoding, which FastAPI answers with a 400 of its own before
-- any dependency is solved, are left out.
pub data Body (A : Type 0) : Type 0 where
  valid : A → Body A
  invalid : Json → Body A
  not_json : Json → Body A

-- What `submit` hands to `background.add_task`.
pub record Task : Type 0 where
  pub job_id : String
  pub payload : JobRequest
  pub caller : Caller
  pub request_id : Option String

module _ {W : Type 0} where
  abbrev pub found : ℕ → Option ApiKey → Context W → Option Caller × Context W
  found now none s = (none, s)
  found now (some k) s =
      (some (record { id = k.id; name = k.name }), record s { pending = touch k.id now })

  -- `PostgresApiKeyRepository.find_by_hash` in the session of the request.
  unfoldable pub find_in_session : Api W → String → Context W → Option Caller × Context W
  unfolding active_key lower
  find_in_session a key_hash s =
      found (a.now s.shared) (active_key (lower key_hash) s.shared.keys) s

  -- `get_authentication_service`
  unfoldable pub get_authentication_service : Api W → AuthenticationService (Context W)
  unfolding find_in_session
  get_authentication_service a = record {
    hash_api_key = a.hash_api_key;
    find_by_hash = find_in_session a;
    require_api_key = a.require_api_key;
  }

  -- `RateLimitDep`
  unfoldable pub limit : Api W → Caller → Exec (Context W) (Unit {0})
  limit a caller s =
      let (r, t) =
        enforce_rate_limit a.rate_limit_enabled caller.id (a.monotonic s.shared)
          (record { limiter = s.shared.limiter; response = s.response; request = s.request }) in
      (
        r,
        record s {
          shared = record s.shared { limiter = t.limiter };
          response = t.response;
          request = t.request;
        },
      )

  -- What FastAPI does with a body before it solves the dependencies.
  abbrev pub parse_body : {A : Type 0} → Body A → Exec (Context W) (Unit {0})
  parse_body (valid a) s = (ok tt, s)
  parse_body (invalid errors) s = (ok tt, s)
  parse_body (not_json errors) s = (raised (invalid_request errors), s)

  -- What it does with the body after that.
  abbrev pub check_body : {A : Type 0} → Body A → Exec (Context W) A
  check_body (valid a) s = (ok a, s)
  check_body (invalid errors) s = (raised (invalid_request errors), s)
  check_body (not_json errors) s = (raised (invalid_request errors), s)

  -- A call of a service from a route.
  abbrev pub call : {A : Type 0} → Exec (AppState W) A → Exec (Context W) A
  call f s = let (r, t) = f s.shared in (r, record s { shared = t })

  -- `complete`
  unfoldable pub complete :
      Api W → Option Credentials → Body CompletionRequest → Exec (Context W) CompletionResponse
  complete a given body = do
    parse_body body
    caller ← get_caller (get_authentication_service a) given
    limit a caller
    payload ← check_body body
    call (a.complete payload caller)

  abbrev pub queued : JobRequest → Caller → JobAccepted → Exec (Context W) (JobAccepted × Task)
  queued payload caller accepted s = (
    ok (
      accepted,
      record {
        job_id = accepted.id;
        payload = payload;
        caller = caller;
        request_id = s.request.request_id;
      },
    ),
    s,
  )

  -- `submit`, with the task that it queues.
  unfoldable pub submit :
      Api W → Option Credentials → Body JobRequest → Exec (Context W) (JobAccepted × Task)
  submit a given body = do
    parse_body body
    caller ← get_caller (get_authentication_service a) given
    limit a caller
    payload ← check_body body
    accepted ← call (a.accept payload caller (or_default payload.model a.upstream_model))
    queued payload caller accepted

  -- `show`
  unfoldable pub show : Api W → Option Credentials → String → Exec (Context W) JobView
  show a given job_id = do
    caller ← get_caller (get_authentication_service a) given
    call (a.get job_id caller)

  -- `get_session`: the pending writes are committed if the route returned, and dropped if it
  -- raised.
  unfoldable pub close_session : {A : Type 0} → Result A × Context W → Result A × Context W
  close_session (ok a, s) =
      (ok a, record s { shared = record s.shared { keys = s.pending s.shared.keys } })
  close_session (raised r, s) = (raised r, s)

  abbrev pub respond :
      {A : Type 0}
      → ℕ
      → (A → Json)
      → Result A × Context W
      → Result JsonResponse × (RequestState × AppState W)
  respond status encode (ok a, s) = (
    ok (record { status_code = status; content = encode a; headers = non_empty_dict s.response }),
    (s.request, s.shared),
  )
  respond status encode (raised r, s) = (raised r, (s.request, s.shared))

  -- A route as the application calls it, with the status of its decorator and the encoding of its
  -- response model.
  unfoldable pub route :
      {A : Type 0}
      → ℕ
      → (A → Json)
      → Exec (Context W) A
      → Exec (RequestState × AppState W) JsonResponse
  unfolding close_session
  route status encode f (request, shared) = respond status encode (
      close_session
        (f (record { shared = shared; request = request; response = []; pending = λ rows. rows })))
