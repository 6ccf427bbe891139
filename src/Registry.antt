-- ===== src/Registry.antt =====
-- internal/core/lane_registry.go: the lanes' names, ids and quotas. `sort.Strings` is a parameter. A
-- `LaneID` is a `uint16`, so the id of a lane is its index modulo 2 ^ 16.
mod Defs
pub use Defs.{LaneRegistry}
unfoldable pub use Defs.{find, new_lane_registry, lookup_lane, quota_of, name_of, lane_count}
