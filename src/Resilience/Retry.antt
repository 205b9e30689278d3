-- ===== src/Resilience/Retry.antt =====
-- `RetryPolicy` of src/services/resilience.py.
--
-- Seconds, floats in the code, are whole numbers of ticks. `random.random()`
-- returns a multiple of 2^-53, so the jitter is that multiple; the delay is rounded down to a tick.
-- The injected clock, jitter and sleep are functions of the state that everything else shares:
-- what other tasks do while one waits is part of what `sleep` and the operation do to it.
pub mod Loop
pub mod Laws
use prd_api_wrapper.Prelude.{
  ℕ, zero, suc, ◌+◌, ◌-◌, ◌*◌, ◌/◌, ◌^◌, min, Bool, not, ◌||◌, Option, none, some, ltb, leb,
  if◌then◌else◌,
}
use prd_api_wrapper.Errors.{AppError}
use prd_api_wrapper.Errors.Handlers.{Raised, app, crash, invalid_request}
use prd_api_wrapper.Exec.{Result, ok, raised, Exec}

abbrev pub jitter_scale : ℕ
jitter_scale = 2 ^ 53

pub record RetryPolicy (S : Type 0) : Type 0 where
  pub max_attempts : ℕ
  pub initial_backoff : ℕ
  pub max_backoff : ℕ
  pub budget : ℕ
  pub sleep : ℕ → S → S
  pub jitter : S → ℕ × S
  pub clock : S → ℕ

-- How an attempt is judged: the loop ends with a result, or goes on from a state.
pub data Verdict (S T : Type 0) : Type 0 where
  finish : Result T → S → Verdict S T
  again : S → Verdict S T

module _ {S : Type 0} where
  -- `attempt` counts from 1.
  unfoldable pub delay_for : RetryPolicy S → ℕ → Option ℕ → S → ℕ × S
  delay_for p attempt (some retry_after) s = (min retry_after p.max_backoff, s)
  delay_for p attempt none s =
      let exponential = p.initial_backoff * 2 ^ (attempt - 1) in
      let (j, s') = p.jitter s in (min exponential p.max_backoff * j / jitter_scale, s')

module _ {S T : Type 0} where
  -- The body of the loop after the operation has answered: the `return`, the `except AppError`
  -- with its two re-raises, and the sleep. `clock() - started + delay > budget` is written without
  -- a subtraction.
  unfoldable pub judge : RetryPolicy S → ℕ → ℕ → Result T × S → Verdict S T
  judge p started attempt (ok a, s) = finish (ok a) s
  judge p started attempt (raised (app e), s) =
      if not e.retryable || leb p.max_attempts attempt
      then finish (raised (app e)) s
      else let (delay, s') = delay_for p attempt e.retry_after s in
        if ltb (p.budget + started) (p.clock s' + delay)
        then finish (raised (app e)) s'
        else again (p.sleep delay s')
  judge p started attempt (raised r, s) = finish (raised r) s

  abbrev pub step : (S → Option (Result T × S)) → Verdict S T → Option (Result T × S)
  step rest (finish r s) = some (r, s)
  step rest (again s) = rest s

  -- `while True`, with fuel: `none` means that the fuel ran out.
  unfoldable pub loop : ℕ → RetryPolicy S → Exec S T → ℕ → ℕ → S → Option (Result T × S)
  loop zero p operation started attempt s = none
  loop (suc fuel) p operation started attempt s =
      step (loop fuel p operation started (suc attempt))
        (judge p started (suc attempt) (operation s))

  abbrev or_stuck : S → Option (Result T × S) → Result T × S
  or_stuck s none = (raised (crash "out of fuel"), s)
  or_stuck s (some r) = r

  -- `RetryPolicy.run`. The fuel is one more than the attempts allowed, which is always enough.
  unfoldable pub run : RetryPolicy S → Exec S T → Exec S T
  run p operation s = or_stuck s (loop (suc p.max_attempts) p operation (p.clock s) 0 s)
