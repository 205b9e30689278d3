-- ===== src/Resilience/Breaker.antt =====
-- `CircuitBreaker` of src/services/resilience.py, and `CircuitState` of src/models/resilience.py.
--
-- A reading of the clock is an argument, in whole units of time; the code reads it where the
-- argument is used.
pub mod Events
pub mod Laws
use prd_api_wrapper.Prelude.{ℕ, ◌+◌, Bool, true, false, ◌||◌, ltb, leb, if◌then◌else◌}
use prd_api_wrapper.Errors.{ErrorClass, new, no_args}
use prd_api_wrapper.Errors.Handlers.{app}
use prd_api_wrapper.Exec.{Result, ok, raised}

-- `OPEN` is spelled `opened`.
pub data CircuitState : Type 0 where
  closed opened half_open : CircuitState

pub record CircuitBreaker : Type 0 where
  pub failure_threshold : ℕ
  pub reset_timeout : ℕ
  pub state : CircuitState
  pub failures : ℕ
  pub opened_at : ℕ

unfoldable pub init : ℕ → ℕ → CircuitBreaker
init failure_threshold reset_timeout = record {
  failure_threshold = failure_threshold;
  reset_timeout = reset_timeout;
  state = closed;
  failures = 0;
  opened_at = 0;
}

abbrev pub is_opened : CircuitState → Bool
is_opened opened = true
is_opened _ = false

abbrev pub is_half_open : CircuitState → Bool
is_half_open half_open = true
is_half_open _ = false

-- `clock() - opened_at < reset_timeout` is written without a subtraction.
unfoldable pub before_call : ℕ → CircuitBreaker → Result (Unit {0}) × CircuitBreaker
before_call now b =
    if is_opened b.state
    then (if ltb now (b.reset_timeout + b.opened_at)
        then (raised (app (new ErrorClass.upstream_circuit_open no_args)), b)
        else (ok tt, record b { state = half_open }))
    else (ok tt, b)

unfoldable pub record_success : CircuitBreaker → CircuitBreaker
record_success b = record b { state = closed; failures = 0 }

unfoldable pub trip : ℕ → CircuitBreaker → CircuitBreaker
trip now b = record b { state = opened; opened_at = now }

unfoldable pub record_failure : ℕ → CircuitBreaker → CircuitBreaker
unfolding trip
record_failure now b =
    let counted = record b { failures = b.failures + 1 } in
    if is_half_open counted.state || leb counted.failure_threshold counted.failures
    then trip now counted
    else counted
