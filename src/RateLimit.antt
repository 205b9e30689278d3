-- ===== src/RateLimit.antt =====
-- src/services/rate_limiter.py, src/models/rate_limit.py and src/dependencies/rate_limit.py: one
-- token bucket for each caller, and the dependency that charges it.
pub mod Bucket
pub mod Limiter
pub mod Enforce
mod Tests
