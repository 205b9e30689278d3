-- ===== src/Dependencies.antt =====
-- The accessors of src/dependencies/common.py and src/dependencies/rate_limit.py: what each request
-- takes from the application that src/factory.py has started.
use prd_api_wrapper.RateLimit.Limiter.{InMemoryRateLimiter}
use prd_api_wrapper.Resilience.Retry.{RetryPolicy}
use prd_api_wrapper.Resilience.Breaker.{CircuitBreaker}
use prd_api_wrapper.Config.{Settings, HttpClient, Application}

module _ {S : Type 0} where
  abbrev pub get_settings : Application S → Settings
  get_settings app = app.settings

  abbrev pub get_http_client : Application S → HttpClient
  get_http_client app = app.http_client

  abbrev pub get_retry_policy : Application S → RetryPolicy S
  get_retry_policy app = app.retry_policy

  abbrev pub get_circuit_breaker : Application S → CircuitBreaker
  get_circuit_breaker app = app.circuit_breaker

  abbrev pub get_rate_limiter : Application S → InMemoryRateLimiter
  get_rate_limiter app = app.rate_limiter
