-- ===== src/Intents.antt =====
-- The service of payment intents, services/paymentIntentService.ts, over the stores of accounts and of
-- payments.
pub mod Public
pub mod Hashes
pub mod Service
pub mod Create
pub mod Confirmed
pub mod Repeated
pub mod Composed
pub mod Recreated
