-- ===== src/Executions.antt =====
-- The execution of a confirmed payment: executions/*.ts and
-- storage/memory/inMemoryExecutionRepository.ts.
pub mod Types
pub mod Repository
pub mod Completion
pub mod Machine
pub mod Writes
pub mod Follow
pub mod History
pub mod Runs
pub mod Leases
pub mod Repeats
