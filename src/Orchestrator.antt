-- ===== src/Orchestrator.antt =====
-- services/orchestrator: the executor of schedules, its boot and resume, and its clients.
pub mod Client
pub mod State
pub mod Tables
pub mod Executor
pub mod Build
pub mod Resume
pub mod Kickoff
pub mod Sweep
pub mod Heartbeat
pub mod Publisher
pub mod Gather
pub mod Bench
pub mod Boot
