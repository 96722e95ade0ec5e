-- ===== src/Payments.antt =====
-- The payment domain: payments/*.ts.
pub mod Types
pub mod Lifecycle
pub mod Replay
