-- ===== src/Adaptive.antt =====
-- internal/core/adaptive_quota_*.go, with adaptive_quota.go: the controller that adjusts the quotas.
pub mod Defs
pub mod Evaluate
pub mod Apply
pub mod Tick
pub mod Once
pub mod Resolve
pub mod Config
pub mod Stepping
pub mod Bounds
pub mod Counted
pub mod Resolving
pub mod Checked
pub mod Tests
