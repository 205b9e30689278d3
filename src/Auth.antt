-- ===== src/Auth.antt =====
-- Who a request belongs to: src/models/caller.py, src/repositories/api_keys.py,
-- src/services/authentication.py and src/dependencies/auth.py.
pub mod Keys
pub mod Service
pub mod Laws
pub mod Agreement
pub mod Mint
mod Tests
