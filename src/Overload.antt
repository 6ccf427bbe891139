-- ===== src/Overload.antt =====
-- internal/core/overload_policy.go: the policy, its snapshot and the decision before an enqueue.
pub mod Defs
pub mod Evaluate
pub mod Keeping
pub mod Update
pub mod Viewing
pub mod Default
pub mod Tests
