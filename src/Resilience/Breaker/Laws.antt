-- ===== src/Resilience/Breaker/Laws.antt =====
-- When the breaker of src/services/resilience.py opens, what an open one refuses, and how a trial
-- call decides.
use prd_api_wrapper.Prelude.{ℕ, suc, ◌+◌, ◌≤◌, ◌<◌, ◌≡◌, refl, true, List, [], ◌∷◌, arith, leb}
use prd_api_wrapper.Exec.{ok, raised}
use prd_api_wrapper.Resilience.Breaker.{
  closed, opened, half_open, CircuitBreaker, init, is_opened, before_call, record_success,
  record_failure,
}
use prd_api_wrapper.Resilience.Breaker.Events.{Event, before, success, failure, after, after_all}

abbrev pub length : List ℕ → ℕ
length [] = 0
length (t ∷ ts) = suc (length ts)

-- Failures recorded one after another, at the times listed.
unfoldable pub fail_all : List ℕ → CircuitBreaker → CircuitBreaker
fail_all [] b = b
fail_all (t ∷ ts) b = fail_all ts (record_failure t b)

fail_all-opened :
    (ts : List ℕ) (b : CircuitBreaker)
    → b.state ≡ opened
    → b.failure_threshold ≤ b.failures
    → is_opened (fail_all ts b).state ≡ true
unfolding fail_all record_failure
fail_all-opened [] b o h = rw o
fail_all-opened (t ∷ ts) b o h =
    fail_all-opened ts (record_failure t b) (ground arith) (ground arith)

fail_all-closed :
    (ts : List ℕ) (b : CircuitBreaker)
    → b.state ≡ closed
    → b.failures < b.failure_threshold
    → is_opened (fail_all ts b).state ≡ leb b.failure_threshold (b.failures + length ts)
unfolding fail_all record_failure
fail_all-closed [] b o h = ground arith
fail_all-closed (t ∷ ts) b o h =
    ground (arith, fail_all-opened ts (record_failure t b), fail_all-closed ts (record_failure t b))

-- From a fresh breaker with a positive threshold, failures with no success between them leave the
-- circuit open exactly when their number reaches the threshold.
pub fail_all_threshold :
    (threshold reset : ℕ) (ts : List ℕ)
    → 0 < threshold
    → is_opened (fail_all ts (init threshold reset)).state ≡ leb threshold (length ts)
unfolding init
fail_all_threshold threshold reset ts h =
    ground (arith, fail_all-closed ts (init threshold reset) refl h)

-- The times of the calls that the breaker lets through, among the events listed.
unfoldable pub admitted : List Event → CircuitBreaker → List ℕ
admitted [] b = []
admitted (before now ∷ es) b =
    let rest = admitted es (after (before now) b) in
    elim (before_call now b).0 [ ok _ ↦ now ∷ rest | raised _ ↦ rest ]
admitted (success ∷ es) b = admitted es (after success b)
admitted (failure now ∷ es) b = admitted es (after (failure now) b)

-- Events without a success, at times from `start` on and before `limit`.
abbrev pub IsQuiet : ℕ → ℕ → List Event → Type 0
IsQuiet start limit [] = Unit
IsQuiet start limit (before now ∷ es) = (start ≤ now) × (now < limit) × IsQuiet start limit es
IsQuiet start limit (success ∷ es) = ⊥
IsQuiet start limit (failure now ∷ es) = (start ≤ now) × (now < limit) × IsQuiet start limit es

-- While an open circuit cools off nothing is let through and it stays open, whatever requests and
-- late failures of other requests arrive, as long as no call that was let through before reports a
-- success.
pub admitted-opened :
    (es : List Event) (b : CircuitBreaker) (start limit : ℕ)
    → b.state ≡ opened
    → start ≤ b.opened_at
    → limit ≤ b.reset_timeout + start
    → IsQuiet start limit es
    → (admitted es b ≡ []) × ((after_all es b).state ≡ opened)
unfolding admitted after_all after before_call record_failure
admitted-opened [] b start limit o le lim q = (refl, o)
admitted-opened (before now ∷ es) b start limit o le lim q =
    ground (arith, admitted-opened es b start limit o le lim q.2)
admitted-opened (success ∷ es) b start limit o le lim q = absurd q
admitted-opened (failure now ∷ es) b start limit o le lim q =
    admitted-opened es (record_failure now b) start limit (ground arith) (ground arith)
      (ground arith) q.2

-- After the cool-off the next call is let through and decides: its success closes the circuit and
-- forgets every failure, its failure opens it for another whole timeout.
pub trial_decides :
    (b : CircuitBreaker) (now later : ℕ)
    → b.state ≡ opened
    → b.reset_timeout + b.opened_at ≤ now
    → let (answer, trial) = before_call now b in
      (answer ≡ ok tt)
      × (trial.state ≡ half_open)
      × ((record_success trial).state ≡ closed)
      × ((record_success trial).failures ≡ 0)
      × ((record_failure later trial).state ≡ opened)
      × ((record_failure later trial).opened_at ≡ later)
unfolding before_call record_success record_failure
trial_decides b now later o h = ground arith

-- Known gap: a success that is reported while the circuit is open, by a call let through before it
-- opened, closes it at once. The next call is let through at any time, with no trial and no
-- cool-off.
pub late_success_closes :
    (b : CircuitBreaker) (now : ℕ)
    → b.state ≡ opened
    → before_call now (record_success b) ≡ (ok tt, record b { state = closed; failures = 0 })
unfolding before_call record_success
late_success_closes b now o = refl
