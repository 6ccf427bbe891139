-- ===== src/HotKey.antt =====
-- internal/core/hotkey_tracker.go and hotkey_config.go: the bounded table of one shard's busiest keys.
mod Defs
mod Observe
pub mod Slots
pub mod Agreeing
pub mod Choosing
pub mod Keeping
pub mod Touching
pub mod PerKey
pub mod Admission
pub mod Expiring
pub mod Fresh
pub mod Planning
pub mod Deciding
pub mod Bumping
pub mod Bounded
pub mod Tests
pub use Defs.{
  HotKeyConfig, HotKeyEntry, HotKeyTracker, MitigationAction, AdmissionReason, unset, allow,
  throttle, reject, shed,
}
unfoldable pub use Defs.{
  zero_entry, new_hot_key_tracker, enabled, hot_key_entry_stale, clear_entry, maybe_reset_entry,
  entry_if_fresh, expire_stale_entries, remove_slot_from_index, init_slot, allocate_slot, touch,
  active_count,
}
unfoldable pub use Observe.{
  observe_submit, observe_enqueue, observe_dequeue, observe_reject, observe_queue_wait,
  observe_inflight_start, observe_inflight_end, entry_for_observation, tracker_totals,
}
