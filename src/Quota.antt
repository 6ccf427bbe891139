-- ===== src/Quota.antt =====
-- internal/core/quota_policy.go: the policy snapshot that the workers read, and its versioned updates.
mod Defs
pub mod Bounds
pub mod Tests
pub use Defs.{QuotaPolicySnapshot, QuotaPolicyInput, is_some}
unfoldable pub use Defs.{
  tabulate, max_lane_quota, snapshot_from_registry, build_quota_policy_snapshot,
}
