-- ===== src/Resilience/Breaker/Events.antt =====
-- The breaker as all requests of a process share it: their calls of its methods in any order.
use prd_api_wrapper.Prelude.{ℕ, ◌<◌, ◌≡◌, List, [], ◌∷◌, arith}
use prd_api_wrapper.Resilience.Breaker.{
  closed, CircuitBreaker, before_call, record_success, record_failure,
}

-- One call of a method, with the time at which it reads the clock.
pub data Event : Type 0 where
  before : ℕ → Event
  success : Event
  failure : ℕ → Event

unfoldable pub after : Event → CircuitBreaker → CircuitBreaker
after (before now) b = (before_call now b).1
after success b = record_success b
after (failure now) b = record_failure now b

unfoldable pub after_all : List Event → CircuitBreaker → CircuitBreaker
unfolding after
after_all [] b = b
after_all (e ∷ es) b = after_all es (after e b)

-- A closed breaker has counted fewer failures than it takes to open it.
pub record IsValid (b : CircuitBreaker) : Type 0 where
  pub positive : 0 < b.failure_threshold
  pub below : b.state ≡ closed → b.failures < b.failure_threshold

pub after-IsValid : (e : Event) (b : CircuitBreaker) → IsValid b → IsValid (after e b)
unfolding after before_call record_success record_failure
after-IsValid (before now) b h = record { positive = ground arith; below = λ e. ground arith }
after-IsValid success b h = record { positive = h.positive; below = λ e. ground arith }
after-IsValid (failure now) b h = record { positive = ground arith; below = λ e. ground arith }

-- However the calls of concurrent requests interleave, a breaker with a positive threshold that is
-- closed has counted fewer failures than the threshold, if it had at the start: none goes on as
-- before once the threshold is reached.
pub after_all-IsValid :
    (es : List Event) (b : CircuitBreaker) → IsValid b → IsValid (after_all es b)
unfolding after_all
after_all-IsValid [] b h = h
after_all-IsValid (e ∷ es) b h = after_all-IsValid es (after e b) (after-IsValid e b h)
