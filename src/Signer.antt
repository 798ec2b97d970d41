-- ===== src/Signer.antt =====
-- _backend/packages/db/src/signer.ts and arc-gas-policy.ts: transactions that are signed once,
-- written to a journal, and sent from there.
pub mod Gas
pub mod World
pub mod Journal
pub mod Durable
mod Tests
