-- ===== src/Resilience/Tests.antt =====
-- Tests of the retry policy and the circuit breaker, and their theorems at concrete inputs.
use prd_api_wrapper.Prelude.{
  ℕ, ◌+◌, ◌^◌, ◌≤◌, ◌<◌, max, ◌≡◌, refl, [], ◌∷◌, arith, ltb, if◌then◌else◌,
}
use prd_api_wrapper.Errors.{ErrorClass, new, no_args}
use prd_api_wrapper.Errors.Handlers.{app}
use prd_api_wrapper.Exec.{ok, raised, Exec}
use prd_api_wrapper.Resilience.Retry.{RetryPolicy, delay_for, run, judge, loop}
use prd_api_wrapper.Resilience.Retry.Laws.{JitterInRange, Ends, run_last_attempt}
use prd_api_wrapper.Resilience.Breaker.{CircuitBreaker, opened}
use prd_api_wrapper.Resilience.Breaker.Events.{before, failure, after_all}
use prd_api_wrapper.Resilience.Breaker.Laws.{admitted, admitted-opened}

-- The state is the clock alone; the jitter always halves.
abbrev patient : RetryPolicy ℕ
patient = record {
  max_attempts = 3;
  initial_backoff = 4;
  max_backoff = 64;
  budget = 100;
  sleep = λ d s. s + d;
  jitter = λ s. (2 ^ 52, s);
  clock = λ s. s;
}

-- A provider that answers from time 5 on, and takes a unit of time for each call.
abbrev flaky : Exec ℕ ℕ
flaky s = (if ltb s 5 then raised (app (new ErrorClass.upstream_error no_args)) else ok s, s + 1)

abbrev broken : Exec ℕ ℕ
broken s = (raised (app (new ErrorClass.upstream_rejected_request no_args)), s + 1)

-- Waits of 2 and 4 units lead to the third attempt at time 8.
run-flaky : run patient flaky 0 ≡ (ok 8, 9)
unfolding run loop judge delay_for new
run-flaky = refl

patient-JitterInRange : JitterInRange patient
patient-JitterInRange s = omega arith

run_last_attempt_example :
    (m : ℕ) × (0 < m) × (m ≤ max 1 3) × Ends patient flaky 0 m (run patient flaky 0)
run_last_attempt_example = run_last_attempt patient patient-JitterInRange flaky 0

abbrev tripped : CircuitBreaker
tripped = record {
  failure_threshold = 2;
  reset_timeout = 30;
  state = opened;
  failures = 2;
  opened_at = 10;
}

admitted-opened_example :
    (admitted (before 12 ∷ failure 20 ∷ before 39 ∷ []) tripped ≡ [])
    × ((after_all (before 12 ∷ failure 20 ∷ before 39 ∷ []) tripped).state ≡ opened)
admitted-opened_example =
    admitted-opened (before 12 ∷ failure 20 ∷ before 39 ∷ []) tripped 10 40 refl (omega arith)
      (omega arith) (omega arith)
