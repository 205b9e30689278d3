-- ===== src/Endpoints/Wiring.antt =====
-- `get_completion_service` of src/dependencies/common.py under the routes of src/endpoints: the
-- completion service, the limiter and the table of keys share one state.
pub mod Laws
mod Tests
use prd_api_wrapper.Prelude.{ℕ, String, List}
use prd_api_wrapper.Json.{Json}
use prd_api_wrapper.Exec.{Exec}
use prd_api_wrapper.RateLimit.Limiter.{InMemoryRateLimiter}
use prd_api_wrapper.Resilience.Retry.{RetryPolicy}
use prd_api_wrapper.Resilience.Breaker.{CircuitBreaker}
use prd_api_wrapper.Auth.Keys.{ApiKey}
use prd_api_wrapper.Completion.Models.{CompletionRequest, CompletionResponse, Caller, UsageEntry}
use prd_api_wrapper.Completion.Upstream.{Runtime}
use prd_api_wrapper.Completion.Service
use prd_api_wrapper.Completion.Service.{State, Posted}
use prd_api_wrapper.Completion.Usage.{record_postgres}
use prd_api_wrapper.Config.{HttpClient, Application}
use prd_api_wrapper.Dependencies.{get_settings, get_http_client, get_retry_policy}
use prd_api_wrapper.Endpoints.{AppState, Api}

-- The breaker of the process, the table of usage, and what is outside.
pub record Services (O : Type 0) : Type 0 where
  pub breaker : CircuitBreaker
  pub entries : List UsageEntry
  pub outside : O

-- What surrounds the completion service.
abbrev pub World : Type 0 → Type 0
World O = List ApiKey × InMemoryRateLimiter × O

module _ {O : Type 0} where
  abbrev pub into : AppState (Services O) → State (World O)
  into s = record {
    breaker = s.services.breaker;
    entries = s.services.entries;
    world = (s.keys, s.limiter, s.services.outside);
  }

  abbrev pub out : State (World O) → AppState (Services O)
  out t = record {
    keys = t.world.0;
    limiter = t.world.1;
    services = record { breaker = t.breaker; entries = t.entries; outside = t.world.2 };
  }

  -- `get_usage_repository`: each row is written in a transaction of its own.
  abbrev get_usage_repository : UsageEntry → Exec (State (World O)) (Unit {0})
  get_usage_repository = record_postgres (λ world. world.0)

  -- `get_completion_service`; `post` is what a client does with a post.
  unfoldable pub get_completion_service :
      Application (State (World O))
      → Runtime
      → (HttpClient → Json → State (World O) → Posted × State (World O))
      → (State (World O) → ℕ)
      → Service.Service (World O)
  get_completion_service app runtime post clock = record {
    runtime = runtime;
    upstream_model = (get_settings app).upstream_model;
    post = post (get_http_client app);
    clock = clock;
    retry = get_retry_policy app;
    store = get_usage_repository;
  }

  -- The routes over this service.
  unfoldable pub with_completions : Service.Service (World O) → Api (Services O) → Api (Services O)
  with_completions c a = record a {
    upstream_model = c.upstream_model;
    complete =
        λ request caller s. let (r, t) = Service.complete c request caller (into s) in (r, out t);
  }
