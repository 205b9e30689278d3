-- ===== src/Endpoints/Traffic/Tests.antt =====
-- Two callers in turn, over the limiter of an application that has started.
use prd_api_wrapper.Prelude.{ℕ, ◌+◌, ◌^◌, ◌≤◌, refl, true, false, List, [], ◌∷◌, arith}
use prd_api_wrapper.Errors.Handlers.{crash}
use prd_api_wrapper.Exec.{raised}
use prd_api_wrapper.RateLimit.Limiter.Laws.{times_of}
use prd_api_wrapper.Completion.Models.{Caller}
use prd_api_wrapper.Config.{
  Settings, Waiting, default_settings, check_production_settings, lifespan, create_app,
}
use prd_api_wrapper.Endpoints.{AppState, Api, limit}
use prd_api_wrapper.Endpoints.Traffic.{
  Event, passes, other, checks, after, let_through, with_settings, let_through_minute,
}

-- The state is the clock.
abbrev halving : Waiting ℕ
halving = record { sleep = λ d s. s + d; jitter = λ s. (2 ^ 52, s); clock = λ s. s }

abbrev signing : Settings
signing = record default_settings { webhook_signing_secret = "secret" }

abbrev api : Api ℕ
api = record {
  hash_api_key = λ key. key;
  require_api_key = true;
  rate_limit_enabled = false;
  upstream_model = "m";
  now = λ s. 7;
  monotonic = λ s. s.services;
  complete = λ payload caller s. (raised (crash "none"), s);
  accept = λ payload caller model s. (raised (crash "none"), s);
  get = λ job_id caller s. (raised (crash "none"), s);
}

abbrev ann : Caller
ann = record { id = "a"; name = "Ann" }

abbrev bob : Caller
bob = record { id = "b"; name = "Bob" }

abbrev morning : AppState ℕ
morning = record { keys = []; limiter = (lifespan halving signing).rate_limiter; services = 1 }

-- What else happens is that time passes.
abbrev events : List (Event ℕ)
events =
    passes ann ∷ passes bob ∷ other (λ s. record s { services = s.services + 5 }) ∷ passes ann ∷ []

let_through_minute_example :
    let_through (with_settings (lifespan halving signing) api) "a" events morning ≤ 10 + 60
unfolding create_app check_production_settings times_of checks after limit with_settings lifespan
let_through_minute_example =
    let_through_minute halving signing (lifespan halving signing) api "a" events morning 1 9
      (6 ∷ []) refl refl refl ((λ s. refl), tt) refl (omega arith) (omega arith)
