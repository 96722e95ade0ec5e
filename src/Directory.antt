-- ===== src/Directory.antt =====
-- The directory of economic identities and their payment destinations: src/economicIdentity and the
-- store of storage/memory/inMemoryEconomicIdentityPersistence.ts.
pub mod Types
pub mod Validation
pub mod Repository
pub mod Unique
pub mod Keeps
pub mod Runs
