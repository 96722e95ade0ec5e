-- ===== src/Devnet.antt =====
-- The preparation, submission and reconciliation of transactions on the Solana devnet:
-- devnet/devnetExecutionState.ts and storage/memory/inMemoryDevnetExecutionStateRepository.ts.
pub mod Types
pub mod Evidence
pub mod Repository
pub mod Observations
pub mod Once
