-- ===== src/Tests.antt =====
-- The theorems at concrete inputs.
mod Payments
mod Identities
mod Values
mod Executions
mod Accounts
mod Projections
mod Intents
mod Directory
mod Devnet
