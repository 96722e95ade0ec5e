-- ===== src/Store.antt =====
-- storage/memory/inMemoryPaymentPersistence.ts, with the types of storage/storageContracts.ts,
-- receipts/paymentReceipt.ts and allowlist/allowlistEntry.ts.
pub mod State
pub mod Events
pub mod Claims
pub mod Identity
pub mod Transitions
pub mod Observations
pub mod Receipts
pub mod Updates
pub mod Flights
pub mod Machine
pub mod Writes
pub mod Performs
pub mod Invariant
pub mod History
pub mod Errors
pub mod Idempotency
pub mod Matches
pub mod Frozen
pub mod Versions
pub mod Access
