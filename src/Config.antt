-- ===== src/Config.antt =====
-- src/factory.py: the application, and what it builds when it starts.
mod Values
mod Logging
mod Database
mod Build
pub mod Laws
mod Tests
pub use Values.{Settings, EnvironmentEnum, default_settings, is_production}
unfoldable pub use Values.{log_as_json, postgresql_uri}
pub use Logging.{Sink, Server}
unfoldable pub use Logging.{configure_logging, server}
pub use Database.{Engine, SessionFactory}
pub use Build.{Cors, Middleware, Endpoint, Route, Built, open_cors}
unfoldable pub use Build.{build_app}
unfoldable pub use Database.{create_database_engine, create_session_factory}
use prd_api_wrapper.Prelude.{
  ℕ, ◌*◌, String, Bool, true, false, not, ◌&&◌, List, [], ◌∷◌, join, truthy, if◌then◌else◌,
}
use prd_api_wrapper.Prelude.Dict.{Dict}
use prd_api_wrapper.Time.{ticks_per_second}
use prd_api_wrapper.Errors.Handlers.{crash}
use prd_api_wrapper.Exec.{Result, ok, raised, Exec, ◌>>=◌, ◌>>◌}
use prd_api_wrapper.Resilience.Retry.{RetryPolicy}
use prd_api_wrapper.Resilience.Breaker
use prd_api_wrapper.Resilience.Breaker.{CircuitBreaker}
use prd_api_wrapper.RateLimit.Limiter
use prd_api_wrapper.RateLimit.Limiter.{InMemoryRateLimiter}

-- The clock, the jitter and the sleep that a policy is given.
pub record Waiting (S : Type 0) : Type 0 where
  pub sleep : ℕ → S → S
  pub jitter : S → ℕ × S
  pub clock : S → ℕ

-- What an `httpx.AsyncClient` is built with.
pub record HttpClient : Type 0 where
  pub base_url : String
  pub headers : Dict String
  pub timeout : ℕ
  pub connect_timeout : ℕ
  pub follow_redirects : Bool

-- `Application`
pub record Application (S : Type 0) : Type 0 where
  pub settings : Settings
  pub built : Built
  pub http_client : HttpClient
  pub retry_policy : RetryPolicy S
  pub circuit_breaker : CircuitBreaker
  pub rate_limiter : InMemoryRateLimiter
  pub postgresql_async_session : SessionFactory
  pub webhook_client : HttpClient
  pub webhook_retry : RetryPolicy S

-- `check_production_settings`
unfoldable pub check_production_settings : Settings → Result (Unit {0})
check_production_settings settings =
    if is_production settings.environment && not (truthy settings.webhook_signing_secret)
    then raised (crash "WEBHOOK_SIGNING_SECRET must be set outside local development.")
    else ok tt

-- The client of the provider. A client of httpx follows no redirect unless it is told to.
unfoldable pub http_client : Settings → HttpClient
http_client settings = record {
  base_url = settings.upstream_base_url;
  headers = ("Authorization", join "Bearer " settings.upstream_api_key) ∷ [];
  timeout = settings.upstream_timeout;
  connect_timeout = settings.upstream_connect_timeout;
  follow_redirects = false;
}

-- The client of the callbacks.
unfoldable pub webhook_client : Settings → HttpClient
webhook_client settings = record {
  base_url = "";
  headers = [];
  timeout = settings.webhook_timeout;
  connect_timeout = 5 * ticks_per_second;
  follow_redirects = false;
}

module _ {S : Type 0} where
  abbrev pub policy : Waiting S → ℕ → Settings → RetryPolicy S
  policy wait max_attempts settings = record {
    max_attempts = max_attempts;
    initial_backoff = settings.retry_initial_backoff;
    max_backoff = settings.retry_max_backoff;
    budget = settings.retry_budget;
    sleep = wait.sleep;
    jitter = wait.jitter;
    clock = wait.clock;
  }

  -- The application that `create_app` has put together, after the `lifespan` up to its `yield`. The
  -- rate is in requests a second, a sixtieth of the setting.
  unfoldable pub lifespan : Waiting S → Settings → Application S
  unfolding http_client webhook_client create_database_engine create_session_factory build_app
  lifespan wait settings = record {
    settings = settings;
    built = build_app settings;
    http_client = http_client settings;
    retry_policy = policy wait settings.retry_max_attempts settings;
    circuit_breaker =
        Breaker.init settings.circuit_breaker_failure_threshold settings.circuit_breaker_reset;
    rate_limiter =
        Limiter.init settings.rate_limit_burst (record {
          gained = settings.rate_limit_requests_per_minute;
          per = 60 * ticks_per_second;
        });
    postgresql_async_session = create_session_factory (create_database_engine settings);
    webhook_client = webhook_client settings;
    webhook_retry = policy wait settings.webhook_max_attempts settings;
  }

  abbrev started : Waiting S → Settings → Result (Unit {0}) → Result (Application S)
  started wait settings (ok _) = ok (lifespan wait settings)
  started wait settings (raised r) = raised r

  -- `create_app`, and the start of what it gives.
  unfoldable pub create_app : Waiting S → Settings → Result (Application S)
  unfolding check_production_settings lifespan
  create_app wait settings = started wait settings (check_production_settings settings)

  -- The same with the sinks of the logger, which are configured before the settings are checked.
  unfoldable pub create_app_logged : Waiting S → Settings → Exec (List Sink) (Application S)
  unfolding create_app configure_logging
  create_app_logged wait settings sinks =
      (create_app wait settings, configure_logging settings sinks)

-- The `lifespan` after its `yield`: the clients are closed, and then the engine. What raises keeps
-- what follows it from being closed.
unfoldable pub shut_down :
    {S T : Type 0}
    → (HttpClient → Exec T (Unit {0}))
    → (Engine → Exec T (Unit {0}))
    → Application S
    → Exec T (Unit {0})
shut_down aclose dispose app = do
  aclose app.http_client
  aclose app.webhook_client
  dispose app.postgresql_async_session.engine
