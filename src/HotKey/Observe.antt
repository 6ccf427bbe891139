-- ===== src/HotKey/Observe.antt =====
-- The observations of internal/core/hotkey_tracker.go, and those of in-flight jobs in
-- internal/core/per_key_policy.go. Each holds the tracker's lock, so it is one function.
use go_keylane.Base.{
  ℕ, ◌+◌, ◌-◌, String, not, ◌||◌, Option, none, some, List, [], ◌∷◌, update, ◌==◌, if◌then◌else◌,
}
use go_keylane.Base.Dict.{lookup}
use go_keylane.Counters.{u64}
use go_keylane.HotKey.Defs.{
  HotKeyTracker, HotKeyEntry, enabled, expire_stale_entries, touch, entry_if_fresh, entry_at,
  hot_key_entry_stale,
}

abbrev pub bump : HotKeyTracker × ℕ → (HotKeyEntry → HotKeyEntry) → HotKeyTracker
bump (t, i) f = record t { entries = update t.entries i f }

abbrev pub bump_fresh : HotKeyTracker × Option ℕ → (HotKeyEntry → HotKeyEntry) → HotKeyTracker
bump_fresh (t, none) f = t
bump_fresh (t, some i) f = record t { entries = update t.entries i f }

unfoldable pub observe_submit : HotKeyTracker → ℕ → ℕ → String → ℕ → HotKeyTracker
unfolding expire_stale_entries touch
observe_submit t key_hash lane_id raw_key now =
    if enabled t
    then bump (touch (expire_stale_entries t now) key_hash lane_id raw_key now)
        (λ e. record e { submitted_approx = u64 (e.submitted_approx + 1) })
    else t

unfoldable pub observe_enqueue : HotKeyTracker → ℕ → ℕ → String → ℕ → HotKeyTracker
unfolding expire_stale_entries touch
observe_enqueue t key_hash lane_id raw_key now =
    if enabled t
    then bump (touch (expire_stale_entries t now) key_hash lane_id raw_key now)
        (λ e. record e { queued_approx = e.queued_approx + 1 })
    else t

-- `-` stops at 0, as the guard `queuedApprox > 0` does.
unfoldable pub observe_dequeue : HotKeyTracker → ℕ → ℕ → HotKeyTracker
unfolding entry_if_fresh
observe_dequeue t key_hash now =
    if enabled t
    then bump_fresh (entry_if_fresh t key_hash now)
        (λ e. record e { queued_approx = e.queued_approx - 1; last_seen = now })
    else t

unfoldable pub observe_reject : HotKeyTracker → ℕ → ℕ → HotKeyTracker
unfolding entry_if_fresh
observe_reject t key_hash now =
    if enabled t
    then bump_fresh (entry_if_fresh t key_hash now)
        (λ e. record e { rejected_approx = u64 (e.rejected_approx + 1); last_seen = now })
    else t

unfoldable pub observe_queue_wait : HotKeyTracker → ℕ → ℕ → ℕ → HotKeyTracker
unfolding entry_if_fresh
observe_queue_wait t key_hash wait_nanos now =
    if not (enabled t) || wait_nanos == 0
    then t
    else bump_fresh (entry_if_fresh t key_hash now) (λ e. record e {
      queue_wait_approx_nanos = u64 (e.queue_wait_approx_nanos + wait_nanos);
      last_seen = now;
    })

unfoldable pub observe_inflight_start : HotKeyTracker → ℕ → ℕ → HotKeyTracker
unfolding entry_if_fresh
observe_inflight_start t key_hash now =
    if enabled t
    then bump_fresh (entry_if_fresh t key_hash now)
        (λ e. record e { inflight_approx = e.inflight_approx + 1; last_seen = now })
    else t

unfoldable pub observe_inflight_end : HotKeyTracker → ℕ → ℕ → HotKeyTracker
unfolding entry_if_fresh
observe_inflight_end t key_hash now =
    if enabled t
    then bump_fresh (entry_if_fresh t key_hash now)
        (λ e. record e { inflight_approx = e.inflight_approx - 1; last_seen = now })
    else t

-- The entry in a slot, for an observer of the key: none if it is of another key, or stale.
abbrev pub observed_slot : HotKeyTracker → ℕ → ℕ → Option ℕ → Option HotKeyEntry
observed_slot t key_hash now none = none
observed_slot t key_hash now (some i) =
    if not ((entry_at t i).key_hash == key_hash)
      || hot_key_entry_stale (entry_at t i) t.cfg.detection_window now
    then none
    else some (entry_at t i)

unfoldable pub entry_for_observation : HotKeyTracker → ℕ → ℕ → Option HotKeyEntry
entry_for_observation t key_hash now = observed_slot t key_hash now (lookup key_hash t.index)

-- The totals of submitted and queued jobs over the entries that are not stale.
unfoldable pub tracker_totals : List HotKeyEntry → ℕ → ℕ → ℕ × ℕ
tracker_totals [] window now = (0, 0)
tracker_totals (e ∷ es) window now =
    let (submitted, queued) = tracker_totals es window now in
    if e.key_hash == 0 || hot_key_entry_stale e window now
    then (submitted, queued)
    else (u64 (e.submitted_approx + submitted), e.queued_approx + queued)
