-- ===== src/Accounts.antt =====
-- Accounts, their external identities, sessions and audit trail: src/identity and the store of
-- storage/memory/inMemoryIdentityPersistence.ts.
pub mod Types
pub mod State
pub mod Repository
pub mod Links
pub mod Sessions
pub mod Machine
pub mod Writes
pub mod Serves
pub mod Invariant
pub mod Kept
pub mod Runs
pub mod Queries
pub mod Again
