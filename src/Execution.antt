-- ===== src/Execution.antt =====
-- minispark/execution: how a plan becomes rows.
pub mod Executor
pub mod Stages
pub mod Dag
pub mod Tasks
pub mod Metrics
pub mod Scheduler
pub mod Worker
