-- ===== src/Auth.antt =====
-- Wallet sign-in: backend/services/auth.py, backend/api/deps.py and backend/api/routers/auth.py.
pub mod Address
pub mod Tables
pub mod Nonces
pub mod Users
pub mod Sessions
pub mod Routes
pub mod Kept
pub mod Canonical
pub mod NonceOnce
pub mod Revoked
