-- ===== src/World.antt =====
-- Submitters, workers and the ready channel together: submit.go and try_submit.go send a shard that
-- became ready on the channel, WorkerLoop of internal/core/worker.go takes it off and processes it.
pub mod Defs
pub mod Tokens
pub mod Storing
pub mod Working
pub mod Invariant
pub mod Moving
pub mod Wakeup
pub mod Initial
pub mod Capacity
pub mod Stranded
pub mod Abandoned
pub mod Validity
pub mod Tests
