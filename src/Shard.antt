-- ===== src/Shard.antt =====
-- internal/core/shard.go and internal/core/enqueue.go: a shard is a lane queue for each lane and the
-- flag `Ready`. Each operation runs under the shard's lock, so it is one function of the shard.
mod Defs
pub mod Enqueuing
pub mod Draining
pub mod Tests
pub use Defs.{Shard}
unfoldable pub use Defs.{
  new_shard, total_depth, has_work, lane_depth, enqueue_into_shard, any_work, total_depths, stamped,
  sum, drain_lanes,
}
