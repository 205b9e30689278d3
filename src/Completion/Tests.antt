-- ===== src/Completion/Tests.antt =====
-- Tests of the completion service, and its theorems at concrete inputs.
use prd_api_wrapper.Prelude.{
  inr, ◌↔◌, ℕ, pos, ◌+◌, ◌^◌, ◌≡◌, ◌≢◌, refl, true, ◌||◌, none, some, List, [], ◌∷◌, ◌++◌, arith,
  leb, ◌==◌, join,
}
use prd_api_wrapper.Json.{
  Json, str, obj, arr, int, nat, no_entry, entry, no_element, element, get_entry, member,
}
use prd_api_wrapper.Time.{milliseconds}
use prd_api_wrapper.Errors.{ErrorClass, class_status, class_message, new, no_args}
use prd_api_wrapper.Errors.Handlers.{Raised, app}
use prd_api_wrapper.Exec.{ok, raised}
use prd_api_wrapper.Resilience.Retry.{RetryPolicy, run}
use prd_api_wrapper.Resilience.Breaker.{CircuitBreaker, opened, half_open, before_call}
use prd_api_wrapper.Resilience.Breaker.Events.{IsValid}
use prd_api_wrapper.Completion.Models.{Caller, CompletionRequest, CompletionResponse}
use prd_api_wrapper.Completion.Upstream.{
  HttpResponse, Runtime, as_app_error, to_response, response_of, usage_of, usage_field, first,
}
use prd_api_wrapper.Completion.Service.{
  State, Service, answered, guarded_call, complete, payload, in_memory_record,
}
use prd_api_wrapper.Completion.Laws.{as_app_error_policy}
use prd_api_wrapper.Completion.Laws.Reading.{IsReadFrom, to_response_outcome}
use prd_api_wrapper.Completion.Laws.Guard.{KeepsBreaker, complete-IsValid, trial_without_verdict}
use prd_api_wrapper.Completion.Laws.Calls.{billed}
use prd_api_wrapper.Completion.Usage.{record_postgres, taken, complete_postgres}
use prd_api_wrapper.Auth.Keys.{ApiKey}

-- Fields that take what is of their type as it is.
abbrev strict : Runtime
strict = record {
  float_of = λ _. none;
  repr = λ text. join "'" (join text "'");
  str_field = λ v. elim v [ str s ↦ some s | _ ↦ none ];
  int_field = λ v. elim v [ int i ↦ some i | _ ↦ none ];
}

abbrev choice : Json
choice = obj (entry "message" (obj (entry "content" (str "Hi") no_entry)) no_entry)

abbrev good_body : Json
good_body = obj (
    entry "id" (str "c1")
      (entry "model" (str "m") (entry "choices" (arr (element choice no_element)) no_entry)))

abbrev answer : CompletionResponse
answer = record {
  id = "c1";
  model = "m";
  content = "Hi";
  usage = record { prompt_tokens = pos 0; completion_tokens = pos 0 };
}

to_response-good_body : to_response strict good_body ≡ ok answer
unfolding to_response response_of get_entry first usage_field usage_of member
to_response-good_body = refl

abbrev busy : HttpResponse
busy = record { status_code = 429; is_error = true; retry_after = some "2"; body = none }

abbrev bad_request : HttpResponse
bad_request = record { status_code = 400; is_error = true; retry_after = none; body = none }

abbrev patient : RetryPolicy (State ℕ)
patient = record {
  max_attempts = 3;
  initial_backoff = 4;
  max_backoff = 64;
  budget = 100;
  sleep = λ d s. record s { world = s.world + d };
  jitter = λ s. (2 ^ 52, s);
  clock = λ s. s.world;
}

-- The world is the clock alone, and every call takes a unit of time.
abbrev service : HttpResponse → Service ℕ
service response = record {
  runtime = strict;
  upstream_model = "m";
  post = λ _ s. (answered response, record s { world = s.world + 1 });
  clock = λ s. s.world;
  retry = patient;
  store = in_memory_record;
}

abbrev ann : Caller
ann = record { id = "a"; name = "Ann" }

abbrev request : CompletionRequest
request = record { prompt = "Hello"; model = none; temperature = nat 1; max_tokens = none }

abbrev tripped : CircuitBreaker
tripped = record {
  failure_threshold = 2;
  reset_timeout = 30;
  state = opened;
  failures = 2;
  opened_at = 10;
}

abbrev at_time : ℕ → CircuitBreaker → State ℕ
at_time now b = record { breaker = b; entries = []; world = now }

as_app_error_policy_example :
    let e = as_app_error strict busy "m" in
    (e.retryable ≡ (429 == 429 || leb 500 429))
    × (class_status e.kind ≢ 401)
    × ((429 == 401 || 429 == 403 || leb 500 429) ≡ true → e.message ≡ class_message e.kind)
as_app_error_policy_example = as_app_error_policy strict busy "m" (omega arith)

to_response_outcome_example :
    ((r : CompletionResponse)
      → (to_response strict good_body ≡ ok r) ↔ IsReadFrom strict good_body r)
    × ((e : Raised)
        → to_response strict good_body ≡ raised e
        → e ≡ app (new ErrorClass.invalid_upstream_response no_args))
to_response_outcome_example = to_response_outcome strict good_body

busy-KeepsBreaker : KeepsBreaker (service busy)
busy-KeepsBreaker = record { posts = λ _ _ h. h; sleeps = λ _ _ h. h; jitters = λ _ h. h }

tripped-IsValid : IsValid tripped
tripped-IsValid = record { positive = omega arith; below = λ e. ground (arith, e) }

complete-IsValid_example :
    IsValid (complete (service busy) request ann (at_time 50 tripped)).1.breaker
unfolding in_memory_record
complete-IsValid_example =
    complete-IsValid (service busy) busy-KeepsBreaker request ann (at_time 50 tripped) (λ _ _. refl)
      tripped-IsValid

abbrev half : CircuitBreaker
half = record tripped { state = half_open }

-- The circuit is still open, and has cooled off.
trial_without_verdict_example :
    let (r, u) = complete (service bad_request) request ann (at_time 50 tripped) in
    (r ≡ raised (app (as_app_error strict bad_request "m")))
    × (u.breaker ≡ half)
    × ((now : ℕ) → before_call now u.breaker ≡ (ok tt, half))
unfolding in_memory_record
trial_without_verdict_example =
    trial_without_verdict (service bad_request) request ann (at_time 50 tripped) (at_time 51 half)
      bad_request (inr (refl, omega arith)) refl refl (refl, omega arith, omega arith, omega arith)
      (λ entry u. refl)

-- The world is the table of keys, and the clock stands still. The anonymous caller has no key.
abbrev keyed : Service (List ApiKey)
keyed = record {
  runtime = strict;
  upstream_model = "m";
  post = λ _ s. (answered busy, s);
  clock = λ s. 0;
  retry = record {
    max_attempts = 2;
    initial_backoff = 4;
    max_backoff = 64;
    budget = 100;
    sleep = λ d s. s;
    jitter = λ s. (2 ^ 52, s);
    clock = λ s. 0;
  };
  store = record_postgres (λ rows. rows);
}

abbrev keyed_state : State (List ApiKey)
keyed_state = record {
  breaker = tripped;
  entries = [];
  world =
      record { id = "a"; name = "Ann"; key_hash = "h"; revoked_at = none; last_used_at = none }
      ∷ [];
}

complete_postgres_example :
    let (r, t) = run keyed.retry (guarded_call keyed (payload "m" request) "m") keyed_state in
    ((complete keyed request ann keyed_state).0 ≡ r)
    × ((complete keyed request ann keyed_state).1.entries
        ≡ t.entries ++ taken t.world (billed ann "m" (milliseconds 0 0) r))
complete_postgres_example =
    complete_postgres keyed (λ rows. rows) ann request keyed_state (λ _ _. refl)
