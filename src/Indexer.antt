-- ===== src/Indexer.antt =====
-- _backend/apps/worker/src/indexer.ts, with reorg.ts and policy-sync.ts beside it.
pub mod Fault
pub mod Reorg
pub mod Policy
pub mod World
pub mod Batch
pub mod Once
