-- ===== src/Tests.antt =====
-- Concrete runs of the theorems.
mod Indexer
mod Auth
mod Rent
mod Contract
mod Yield
mod Speech
mod Routes
mod Investments
mod Names
mod Queues
mod Funding
