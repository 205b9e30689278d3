-- ===== src/Completion.antt =====
-- src/services/completion.py: the client of the upstream provider.
pub mod Models
pub mod Upstream
pub mod Service
pub mod Laws
pub mod Usage
mod Tests
