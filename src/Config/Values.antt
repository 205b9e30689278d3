-- ===== src/Config/Values.antt =====
-- src/configuration.py. Settings in seconds are ticks, and those that the code reads as numbers are
-- not negative.
use prd_api_wrapper.Prelude.{ℕ, ◌*◌, String, Bool, true, false, not, Option, none, some, show, join}
use prd_api_wrapper.Time.{ticks_per_second}

pub data EnvironmentEnum : Type 0 where
  local development production : EnvironmentEnum

-- `ROOT_DIR`, which nothing reads, is left out.
pub record Settings : Type 0 where
  pub environment : EnvironmentEnum
  pub host : String
  pub port : ℕ
  pub debug : Bool
  pub log_level : String
  pub log_json : Option Bool
  pub upstream_base_url : String
  pub upstream_api_key : String
  pub upstream_model : String
  pub upstream_timeout : ℕ
  pub upstream_connect_timeout : ℕ
  pub postgresql_username : String
  pub postgresql_password : String
  pub postgresql_host : String
  pub postgresql_port : ℕ
  pub postgresql_db : String
  pub postgresql_echo : Bool
  pub postgresql_schema : String
  pub require_api_key : Bool
  pub webhook_signing_secret : String
  pub webhook_timeout : ℕ
  pub webhook_max_attempts : ℕ
  pub rate_limit_enabled : Bool
  pub rate_limit_requests_per_minute : ℕ
  pub rate_limit_burst : ℕ
  pub retry_max_attempts : ℕ
  pub retry_initial_backoff : ℕ
  pub retry_max_backoff : ℕ
  pub retry_budget : ℕ
  pub circuit_breaker_failure_threshold : ℕ
  pub circuit_breaker_reset : ℕ

-- The defaults.
abbrev pub default_settings : Settings
default_settings = record {
  environment = EnvironmentEnum.production;
  host = "0.0.0.0";
  port = 8080;
  debug = false;
  log_level = "INFO";
  log_json = none;
  upstream_base_url = "http://localhost:11434/v1";
  upstream_api_key = "ollama";
  upstream_model = "llama3.2:3b";
  upstream_timeout = 60 * ticks_per_second;
  upstream_connect_timeout = 2 * ticks_per_second;
  postgresql_username = "postgres";
  postgresql_password = "postgres";
  postgresql_host = "localhost";
  postgresql_port = 5432;
  postgresql_db = "postgres";
  postgresql_echo = false;
  postgresql_schema = "public";
  require_api_key = true;
  webhook_signing_secret = "";
  webhook_timeout = 10 * ticks_per_second;
  webhook_max_attempts = 4;
  rate_limit_enabled = true;
  rate_limit_requests_per_minute = 60;
  rate_limit_burst = 10;
  retry_max_attempts = 3;
  retry_initial_backoff = 500_000_000;
  retry_max_backoff = 8 * ticks_per_second;
  retry_budget = 30 * ticks_per_second;
  circuit_breaker_failure_threshold = 5;
  circuit_breaker_reset = 30 * ticks_per_second;
}

abbrev is_local : EnvironmentEnum → Bool
is_local EnvironmentEnum.local = true
is_local _ = false

abbrev pub is_production : EnvironmentEnum → Bool
is_production EnvironmentEnum.production = true
is_production _ = false

unfoldable pub log_as_json : Settings → Bool
log_as_json settings = elim settings.log_json [
  | none ↦ not (is_local settings.environment)
  | some b ↦ b
]

unfoldable pub postgresql_uri : Settings → String
postgresql_uri settings =
    let host = join settings.postgresql_host (join ":" (show settings.postgresql_port)) in
    let user = join settings.postgresql_username (join ":" settings.postgresql_password) in
    join "postgresql+asyncpg://"
      (join user (join "@" (join host (join "/" settings.postgresql_db))))
