-- ===== src/Endpoints/Wiring/Tests.antt =====
-- A completion over the services of an application that was started with the default settings.
use prd_api_wrapper.Prelude.{ℕ, refl, true, none, some, [], ◌∷◌, ◌^◌, arith}
use prd_api_wrapper.Prelude.Dict.{lookup}
use prd_api_wrapper.Prelude.Case.{lower}
use prd_api_wrapper.Json.{str, int, nat}
use prd_api_wrapper.Errors.Handlers.{crash}
use prd_api_wrapper.Exec.{raised}
use prd_api_wrapper.RateLimit.Bucket
use prd_api_wrapper.RateLimit.Bucket.{RateLimitDecision, take, refill, charge}
use prd_api_wrapper.RateLimit.Limiter
use prd_api_wrapper.RateLimit.Limiter.{check, bucket_for}
use prd_api_wrapper.Resilience.Breaker
use prd_api_wrapper.Resilience.Breaker.{CircuitBreaker, opened}
use prd_api_wrapper.Completion.Models.{CompletionRequest}
use prd_api_wrapper.Completion.Upstream.{Runtime}
use prd_api_wrapper.Completion.Service.{State, timed_out}
use prd_api_wrapper.Auth.Keys.{ApiKey, active_key}
use prd_api_wrapper.Config.{Application, default_settings, lifespan}
use prd_api_wrapper.Endpoints.{AppState, Api, valid}
use prd_api_wrapper.Endpoints.Closing.{Gives}
use prd_api_wrapper.Endpoints.Laws.{served_complete}
use prd_api_wrapper.Endpoints.Wiring.{Services, World, get_completion_service, with_completions}
use prd_api_wrapper.Endpoints.Wiring.Laws.{recorded, outage_recorded}

-- What is outside is the clock.
abbrev wrapper : Application (State (World ℕ))
wrapper =
    lifespan (record { sleep = λ d s. s; jitter = λ s. (2 ^ 52, s); clock = λ s. s.world.2 })
      default_settings

abbrev runtime : Runtime
runtime = record {
  float_of = λ _. none;
  repr = λ text. text;
  str_field = λ v. elim v [ str s ↦ some s | _ ↦ none ];
  int_field = λ v. elim v [ int i ↦ some i | _ ↦ none ];
}

abbrev ann_key : ApiKey
ann_key = record {
  id = "a";
  name = "Ann";
  key_hash = "sk-ann";
  revoked_at = none;
  last_used_at = none;
}

abbrev unused : Api (Services ℕ)
unused = record {
  hash_api_key = λ key. key;
  require_api_key = true;
  rate_limit_enabled = true;
  upstream_model = "m";
  now = λ s. 7;
  monotonic = λ s. s.services.outside;
  complete = λ payload caller s. (raised (crash "none"), s);
  accept = λ payload caller model s. (raised (crash "none"), s);
  get = λ job_id caller s. (raised (crash "none"), s);
}

abbrev tripped : CircuitBreaker
tripped = record wrapper.circuit_breaker { state = opened; failures = 5; opened_at = 10 }

abbrev down : AppState (Services ℕ)
down = record {
  keys = ann_key ∷ [];
  limiter = wrapper.rate_limiter;
  services = record { breaker = tripped; entries = []; outside = 20 };
}

abbrev nine_left : RateLimitDecision
nine_left = record {
  allowed = true;
  limit = 10;
  remaining = 9;
  reset_after = record { num = 60_000_000_000; den = 60 };
  retry_after = record { num = 0; den = 1 };
}

abbrev question : CompletionRequest
question = record { prompt = "Hello"; model = none; temperature = nat 1; max_tokens = none }

outage_recorded_example :
    let s = record down { limiter = (check "a" 20 down.limiter).1 } in
    Gives 503 (recorded "llama3.2:3b" ann_key question 20 s) (
      served_complete
        (with_completions
          (get_completion_service wrapper runtime (λ client b t. (timed_out, t)) (λ t. t.world.2))
          unused)
        "0f"
        none
        (record { request_id = none; response_headers = none })
        down
        (λ r. str r.content)
        (some (record { scheme = "Bearer"; credentials = "sk-ann" }))
        (valid question))
unfolding active_key lower check take Limiter.init Bucket.init lookup lifespan Breaker.init
outage_recorded_example =
    outage_recorded wrapper runtime (λ client b t. (timed_out, t)) (λ t. t.world.2) unused "0f" none
      (record { request_id = none; response_headers = none }) down
      (record { scheme = "Bearer"; credentials = "sk-ann" }) ann_key nine_left question
      (λ r. str r.content) refl (refl, refl) refl refl refl (omega arith)
