-- ===== src/Completion/Service.antt =====
-- `CompletionService` of src/services/completion.py: one guarded attempt, the retries around it,
-- and the usage record of each call.
--
-- The state holds what requests share. An await is a function of the whole state, so what other
-- requests do to it meanwhile is part of the calls that leave this process: the post, the sleep and
-- the write of the usage.
use prd_api_wrapper.Prelude.{
  ℕ, ℤ, pos, String, Option, none, some, List, [], ◌∷◌, ◌++◌, or_default, if◌then◌else◌,
}
use prd_api_wrapper.Json.{Json, Entries, str, obj, arr, nat, no_entry, entry, no_element, element}
use prd_api_wrapper.Time.{milliseconds}
use prd_api_wrapper.Errors.{ErrorClass, class_status, new, no_args}
use prd_api_wrapper.Errors.Handlers.{app, crash}
use prd_api_wrapper.Exec.{Result, ok, raised, Exec}
use prd_api_wrapper.Resilience.Retry.{RetryPolicy, run}
use prd_api_wrapper.Resilience.Breaker.{CircuitBreaker, before_call, record_success, record_failure}
use prd_api_wrapper.Completion.Models.{
  Caller, CompletionRequest, CompletionUsage, CompletionResponse, UsageEntry,
}
use prd_api_wrapper.Completion.Upstream.{HttpResponse, Runtime, as_app_error, to_response}

-- `W` is the world outside of the process.
pub record State (W : Type 0) : Type 0 where
  pub breaker : CircuitBreaker
  pub entries : List UsageEntry
  pub world : W

-- What `client.post` does: it answers, or raises a timeout, another `httpx.RequestError`, or
-- something else.
pub data Posted : Type 0 where
  answered : HttpResponse → Posted
  timed_out : Posted
  unreachable : Posted
  failed : String → Posted

-- What the service is built from. `clock` is `time.monotonic`, `store` the usage repository.
pub record Service (W : Type 0) : Type 0 where
  pub runtime : Runtime
  pub upstream_model : String
  pub post : Json → State W → Posted × State W
  pub clock : State W → ℕ
  pub retry : RetryPolicy (State W)
  pub store : UsageEntry → Exec (State W) (Unit {0})

-- `InMemoryUsageRepository.record` of src/repositories/usage.py
unfoldable pub in_memory_record : {W : Type 0} → UsageEntry → Exec (State W) (Unit {0})
in_memory_record e s = (ok tt, record s { entries = s.entries ++ e ∷ [] })

abbrev pub max_tokens_entry : Option ℕ → Entries
max_tokens_entry none = no_entry
max_tokens_entry (some n) = entry "max_tokens" (nat n) no_entry

-- The `payload` of `complete`.
unfoldable pub payload : String → CompletionRequest → Json
payload model request =
    let message = obj (entry "role" (str "user") (entry "content" (str request.prompt) no_entry)) in
    obj (
      entry "model" (str model) (
        entry "messages" (arr (element message no_element))
          (entry "temperature" request.temperature (max_tokens_entry request.max_tokens))))

abbrev pub body_result : Runtime → Option Json → Result CompletionResponse
body_result rt none = raised (app (new ErrorClass.invalid_upstream_response no_args))
body_result rt (some body) = to_response rt body

abbrev pub handle_response : Runtime → String → HttpResponse → Result CompletionResponse
handle_response rt model response =
    if response.is_error
    then raised (app (as_app_error rt response model))
    else body_result rt response.body

-- `_call_upstream`, after the post
unfoldable pub read_posted : Runtime → String → Posted → Result CompletionResponse
read_posted rt model (answered response) = handle_response rt model response
read_posted rt model timed_out = raised (app (new ErrorClass.upstream_timeout no_args))
read_posted rt model unreachable = raised (app (new ErrorClass.upstream_unavailable no_args))
read_posted rt model (failed text) = raised (crash text)

abbrev pub tokens_of : Option CompletionUsage → (CompletionUsage → ℤ) → ℤ
tokens_of none f = pos 0
tokens_of (some u) f = f u

module _ {W : Type 0} where
  -- `_call_upstream`
  unfoldable pub call_upstream : Service W → Json → String → Exec (State W) CompletionResponse
  unfolding read_posted
  call_upstream c body model s =
      let (posted, s') = c.post body s in (read_posted c.runtime model posted, s')

  -- What `_guarded_call` does with the outcome of the call.
  unfoldable pub observe :
      Service W → Result CompletionResponse × State W → Result CompletionResponse × State W
  observe c (ok response, s) = (ok response, record s { breaker = record_success s.breaker })
  observe c (raised (app e), s) = (
    raised (app e),
    if e.retryable then record s { breaker = record_failure (c.clock s) s.breaker } else s,
  )
  observe c (raised r, s) = (raised r, s)

  abbrev pub proceed :
      Service W
      → Json
      → String
      → State W
      → Result (Unit {0}) × CircuitBreaker
      → Result CompletionResponse × State W
  proceed c body model s (ok _, b) =
      observe c (call_upstream c body model (record s { breaker = b }))
  proceed c body model s (raised r, b) = (raised r, record s { breaker = b })

  -- `_guarded_call`
  unfoldable pub guarded_call : Service W → Json → String → Exec (State W) CompletionResponse
  unfolding call_upstream observe
  guarded_call c body model s = proceed c body model s (before_call (c.clock s) s.breaker)

  -- `_record`: whatever the store raises is dropped.
  unfoldable pub record_usage :
      Service W → Caller → String → ℕ → ℕ → Option CompletionUsage → State W → State W
  record_usage c caller model status_code started usage s =
      (c.store
        (record {
          api_key_id = caller.id;
          model = model;
          status_code = status_code;
          duration_ms = milliseconds started (c.clock s);
          prompt_tokens = tokens_of usage (λ u. u.prompt_tokens);
          completion_tokens = tokens_of usage (λ u. u.completion_tokens);
        })
        s).1

  -- The `except AppError` of `complete` and what follows it.
  unfoldable pub account :
      Service W
      → Caller
      → String
      → ℕ
      → Result CompletionResponse × State W
      → Result CompletionResponse × State W
  unfolding record_usage
  account c caller model started (ok response, s) =
      (ok response, record_usage c caller model 200 started (some response.usage) s)
  account c caller model started (raised (app e), s) =
      (raised (app e), record_usage c caller model (class_status e.kind) started none s)
  account c caller model started (raised r, s) = (raised r, s)

  abbrev pub model_for : Service W → CompletionRequest → String
  model_for c request = or_default request.model c.upstream_model

  -- `complete`
  unfoldable pub complete :
      Service W → CompletionRequest → Caller → Exec (State W) CompletionResponse
  unfolding account payload
  complete c request caller s =
      let model = model_for c request in
      account c caller model (c.clock s)
        (run c.retry (guarded_call c (payload model request) model) s)
