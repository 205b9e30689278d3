-- ===== src/Jobs/Wiring/Tests.antt =====
-- The theorem of the wired jobs at a concrete input.
use prd_api_wrapper.Prelude.{ℕ, ◌+◌, ◌^◌, pos, String, ◌≡◌, refl, none, some, [], ◌∷◌, join, arith}
use prd_api_wrapper.Prelude.Dict.{Dict, lookup}
use prd_api_wrapper.Json.{nat, str, int}
use prd_api_wrapper.Exec.{ok}
use prd_api_wrapper.Resilience.Retry.{RetryPolicy}
use prd_api_wrapper.Resilience.Breaker.{opened}
use prd_api_wrapper.Completion.Models.{Caller}
use prd_api_wrapper.Completion.Service
use prd_api_wrapper.Completion.Service.{State, in_memory_record}
use prd_api_wrapper.Webhooks
use prd_api_wrapper.Webhooks.{WebhookService}
use prd_api_wrapper.Jobs.Models.{JobStatus, JobRequest, Job, WebhookPayload}
use prd_api_wrapper.Jobs.Repository.{JobState, in_memory}
use prd_api_wrapper.Jobs.Service.{new_job, run}
use prd_api_wrapper.Jobs.Wiring.{get_job_service}
use prd_api_wrapper.Jobs.Wiring.Laws.{CallsLeaveRow, run_paused}

abbrev provider_retry : RetryPolicy (State (Dict Job × ℕ))
provider_retry = record {
  max_attempts = 3;
  initial_backoff = 4;
  max_backoff = 64;
  budget = 100;
  sleep = λ d s. record s { world = (s.world.0, s.world.1 + d) };
  jitter = λ s. (2 ^ 52, s);
  clock = λ s. s.world.1;
}

abbrev provider : Service.Service (Dict Job × ℕ)
provider = record {
  runtime = record {
    float_of = λ _. none;
    repr = λ text. join "'" (join text "'");
    str_field = λ v. elim v [ str s ↦ some s | _ ↦ none ];
    int_field = λ v. elim v [ int i ↦ some i | _ ↦ none ];
  };
  upstream_model = "m";
  post = λ _ s. (Service.timed_out, s);
  clock = λ s. s.world.1;
  retry = provider_retry;
  store = in_memory_record;
}

abbrev callback_retry : RetryPolicy (JobState (State ℕ))
callback_retry = record {
  max_attempts = 2;
  initial_backoff = 4;
  max_backoff = 64;
  budget = 100;
  sleep = λ _ s. s;
  jitter = λ s. (2 ^ 52, s);
  clock = λ s. s.rest.world;
}

-- A receiver that cannot be reached.
abbrev callbacks : WebhookService (JobState (State ℕ))
callbacks = record {
  crypto = record { hmac_hex = λ key text. join key text; int_of = λ _. some (pos 0) };
  post = λ _ _ _ s. (Webhooks.unreachable, s);
  time = λ s. s.rest.world;
  retry = callback_retry;
  secret = "secret";
}

abbrev asked : JobRequest
asked = record {
  prompt = "Hello";
  model = none;
  temperature = nat 1;
  max_tokens = none;
  callback_url = "https://example.com/hook";
}

abbrev client : Caller
client = record { id = "a"; name = "Ann" }

abbrev pending_job : Job
pending_job = new_job "j0" asked client "m"

abbrev outage : JobState (State ℕ)
outage = record {
  jobs = ("j0", pending_job) ∷ [];
  rest = record {
    breaker = record {
      failure_threshold = 2;
      reset_timeout = 30;
      state = opened;
      failures = 2;
      opened_at = 10;
    };
    entries = [];
    world = 20;
  };
}

abbrev dumped : WebhookPayload → String
dumped payload = payload.job_id

quiet_calls :
    CallsLeaveRow
      (in_memory (λ s. s.rest.world))
      provider
      callbacks
      dumped
      (λ _. "j1")
      (λ s. s.rest.world)
      "j0"
unfolding in_memory_record
quiet_calls = record {
  completion = λ row. record {
    posts = λ _ _ h. h;
    sleeps = λ _ _ h. h;
    jitters = λ _ h. h;
    stores = λ _ _ h. h;
  };
  delivery = λ row. record { posts = λ _ _ _ _ h. h; sleeps = λ _ _ h. h; jitters = λ _ h. h };
}

run_paused_example :
    let o =
      run
        (get_job_service
          (in_memory (λ s. s.rest.world))
          provider
          callbacks
          dumped
          (λ _. "j1")
          (λ s. s.rest.world))
        "j0"
        asked
        client
        outage in
    (o.0 ≡ ok tt)
    × ((job' : Job) × (lookup "j0" o.1.jobs ≡ some job')
        × (job'.status ≡ JobStatus.failed)
        × (job'.error_code ≡ some "upstream_circuit_open")
        × (job'.content ≡ none))
unfolding lookup
run_paused_example =
    run_paused (in_memory (λ s. s.rest.world)) provider callbacks dumped (λ _. "j1")
      (λ s. s.rest.world) "j0" quiet_calls (λ _ _. refl) asked client outage pending_job refl refl
      (omega arith)
