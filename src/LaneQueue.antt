-- ===== src/LaneQueue.antt =====
-- internal/core/lane_queue.go: the bounded ring of one lane in one shard. `int` fields are natural
-- numbers: none of them is ever decremented below 0. `dst` of `popN` comes with its capacity.
mod Defs
pub mod Contents
pub mod Refinement
pub mod Draining
pub mod Fifo
pub mod Tests
pub use Defs.{LaneQueue}
unfoldable pub use Defs.{
  new_lane_queue, push, stamp, stamp_newest_accepted, pop, pop_n, is_full, is_empty, depth,
  capacity,
}
