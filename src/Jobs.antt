-- ===== src/Jobs.antt =====
-- Work that is accepted now and answered later: src/models/job.py, the table `Job` of
-- src/models/tables.py, src/repositories/jobs.py, src/services/jobs.py.
pub mod Lifecycle
pub mod Course
pub mod Models
pub mod Store
pub mod Repository
pub mod Postgres
pub mod Service
pub mod Outcome
pub mod Laws
pub mod Access
pub mod Wiring
mod Tests
