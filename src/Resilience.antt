-- ===== src/Resilience.antt =====
-- src/services/resilience.py: the retry policy and the circuit breaker.
pub mod Retry
pub mod Breaker
mod Tests
