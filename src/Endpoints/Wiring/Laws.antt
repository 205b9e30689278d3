-- ===== src/Endpoints/Wiring/Laws.antt =====
-- A request of src/endpoints/completion.py while the provider is down.
use prd_api_wrapper.Prelude.{
  ℕ, ◌+◌, ◌<◌, pos, or_default, String, ◌≡◌, refl, true, Option, some, [], ◌∷◌, ◌++◌,
}
use prd_api_wrapper.Json.{Json}
use prd_api_wrapper.Time.{milliseconds}
use prd_api_wrapper.Errors.{ErrorClass, class_status, new, no_args}
use prd_api_wrapper.Errors.Handlers.{RequestState, JsonResponse, app as app_error}
use prd_api_wrapper.Exec.{Result, ok, raised}
use prd_api_wrapper.RateLimit.Bucket.{RateLimitDecision}
use prd_api_wrapper.Resilience.Breaker.{opened}
use prd_api_wrapper.Auth.Keys.{ApiKey}
use prd_api_wrapper.Auth.Service.{Credentials}
use prd_api_wrapper.Completion.Models.{CompletionRequest, CompletionResponse, UsageEntry}
use prd_api_wrapper.Completion.Upstream.{Runtime}
use prd_api_wrapper.Completion.Service.{State, Posted, record_usage}
use prd_api_wrapper.Completion.Laws.Guard.{complete_paused}
use prd_api_wrapper.Completion.Usage.{taken, record_postgres_state}
use prd_api_wrapper.Config.{HttpClient, Application}
use prd_api_wrapper.Endpoints.{AppState, Api, valid}
use prd_api_wrapper.Endpoints.Closing.{Gives}
use prd_api_wrapper.Endpoints.Steps.{IsAdmitted, caller_of_key, charged, decision}
use prd_api_wrapper.Endpoints.Laws.{served_complete}
use prd_api_wrapper.Endpoints.Accepted.{Follows, complete-Follows}
use prd_api_wrapper.Endpoints.Wiring.{
  Services, World, into, get_completion_service, with_completions,
}

module _ {O : Type 0} (a : Api (Services O)) (fresh : String) (header : Option String)
    (request : RequestState) (shared : AppState (Services O)) where
  ended :
      (encode : CompletionResponse → Json) (k : ApiKey) (d : RateLimitDecision)
      (p q : Result CompletionResponse × AppState (Services O))
      (o : JsonResponse × AppState (Services O))
      → p ≡ q
      → Follows a fresh header request shared 200 encode k d p.0 p.1 o
      → Follows a fresh header request shared 200 encode k d q.0 q.1 o
  ended encode k d p q o e f = rw⁻¹ e f

-- The row of a completion that was refused.
abbrev refused_row : String → ApiKey → CompletionRequest → ℕ → UsageEntry
refused_row upstream k payload now = record {
  api_key_id = k.id;
  model = or_default payload.model upstream;
  status_code = 503;
  duration_ms = milliseconds now now;
  prompt_tokens = pos 0;
  completion_tokens = pos 0;
}

-- The state with that row, if the table takes it.
abbrev pub recorded :
    {O : Type 0}
    → String
    → ApiKey
    → CompletionRequest
    → ℕ
    → AppState (Services O)
    → AppState (Services O)
recorded upstream k payload now s = record s {
  services = record s.services {
    entries = s.services.entries ++ taken s.keys (refused_row upstream k payload now ∷ []);
  };
}

module _ {O : Type 0} (app : Application (State (World O))) (runtime : Runtime)
    (post : HttpClient → Json → State (World O) → Posted × State (World O))
    (clock : State (World O) → ℕ) (a : Api (Services O)) where
  paused :
      (k : ApiKey) (payload : CompletionRequest) (s : AppState (Services O))
      → s.services.breaker.state ≡ opened
      → clock (into s) < s.services.breaker.reset_timeout + s.services.breaker.opened_at
      → (with_completions (get_completion_service app runtime post clock) a).complete payload
          (caller_of_key a k)
          s
        ≡ (
          raised (app_error (new ErrorClass.upstream_circuit_open no_args)),
          recorded app.settings.upstream_model k payload (clock (into s)) s,
        )
  unfolding with_completions get_completion_service record_usage
  paused k payload s o cooling =
      let c = get_completion_service app runtime post clock in
      rw
        (
          complete_paused c payload (caller_of_key a k) (into s) o cooling,
          record_postgres_state (λ (w : World O). w.0)
              (refused_row app.settings.upstream_model k payload (clock (into s))) (into s),
        )
        refl

  -- Where requests are limited, and while the circuit is open and cooling off, a valid completion
  -- of an active key within its allowance is answered with 503. It leaves the token spent and the
  -- usage table with the row of the refusal, if the table takes it; the provider is not called, and
  -- the breaker, the keys and all else are as they were.
  pub outage_recorded :
      (fresh : String) (header : Option String) (request : RequestState)
      (shared : AppState (Services O)) (given : Credentials) (k : ApiKey) (d : RateLimitDecision)
      (payload : CompletionRequest) (encode : CompletionResponse → Json)
      → a.rate_limit_enabled ≡ true
      → IsAdmitted a given k shared
      → decision a k shared ≡ ok d
      → d.allowed ≡ true
      → shared.services.breaker.state ≡ opened
      → clock (into (charged a k shared))
        < shared.services.breaker.reset_timeout + shared.services.breaker.opened_at
      → let s = charged a k shared in
        Gives 503 (recorded app.settings.upstream_model k payload (clock (into s)) s) (
          served_complete
            (with_completions (get_completion_service app runtime post clock) a)
            fresh
            header
            request
            shared
            encode
            (some given)
            (valid payload))
  unfolding with_completions class_status new
  outage_recorded fresh header request shared given k d payload encode on h e more o cooling =
      let api = with_completions (get_completion_service app runtime post clock) a in
      let s = charged a k shared in
      ended api fresh header request shared encode k d _ _
        (served_complete api fresh header request shared encode (some given) (valid payload))
        (paused k payload s o cooling)
        (complete-Follows api fresh header request shared given k d payload encode on h e more)
