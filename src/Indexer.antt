-- ===== src/Indexer.antt =====
-- The event indexer, backend/services/blockchain_indexer.py, with the payout helpers of
-- backend/api/_helpers.py that it calls.
pub mod Rows
pub mod Chain
pub mod Writes
pub mod Payouts
pub mod Handlers
pub mod RentHandlers
pub mod Reconcile
pub mod Logs
pub mod Sync
pub mod Stable
pub mod Valid
pub mod Claims
pub mod Ownership
pub mod Transfers
pub mod Replay
pub mod Cycle
