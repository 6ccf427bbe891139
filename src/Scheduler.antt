-- ===== src/Scheduler.antt =====
-- internal/core/scheduler.go, process_shard.go, shutdown.go, drain.go and worker.go.
pub mod State
pub mod Enqueue
pub mod Process
pub mod Batch
pub mod Policy
pub mod Versions
pub mod Lifecycle
pub mod Tests
