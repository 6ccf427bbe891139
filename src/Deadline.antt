-- ===== src/Deadline.antt =====
-- deadline_budget.go: the caller's deadline and the time that is left of it. A time is its Unix
-- nanoseconds; a negative remainder is cut to 0 as the source does, which is `-` here.
mod Defs
pub mod Clock
pub mod Tests
pub use Defs.{DeadlineBudget}
unfoldable pub use Defs.{
  new_deadline_budget, refresh_at, with_queue_wait_at, with_runtime_at, remaining_at,
  has_remaining_at, is_exhausted_at,
}
