-- ===== src/Scheduler/State.antt =====
-- The scheduler of internal/core/scheduler.go: its fields, construction, and hot-key configuration.
-- Mutexes, wait groups and contexts are not fields: what they guard is stated at each operation.
use go_keylane.Base.{
  ℕ, ◌%◌, Bool, true, false, not, ◌||◌, Option, none, some, List, [], length, update, replicate,
  ◌==◌, if◌then◌else◌,
}
use go_keylane.Counters.{LaneCounters, Accum, new_lane_counters, new_accum}
use go_keylane.HotKey.{HotKeyConfig, HotKeyTracker, new_hot_key_tracker}
use go_keylane.Shard.{Shard, new_shard}
use go_keylane.Registry.{LaneRegistry, lane_count}
use go_keylane.Quota.{QuotaPolicySnapshot, snapshot_from_registry}

-- internal/core/lifecycle.go
pub data LifecycleState : Type 0 where
  state_new state_running state_stopping state_stopped : LifecycleState

-- The switches of `ObservabilityConfig` that the scheduler's own state depends on. `hooks_time_runs`
-- is `obsHooksNeedRunDuration`; the hooks themselves are the client's.
pub record Obs : Type 0 where
  pub enable_counters : Bool
  pub enable_queue_wait_timing : Bool
  pub enable_run_timing : Bool
  pub track_queue_wait : Bool
  pub hooks_time_runs : Bool
  pub disable_pooling : Bool

-- `defaultObservabilityConfig`, with no hook set.
abbrev pub default_obs : Obs
default_obs = record {
  enable_counters = true;
  enable_queue_wait_timing = true;
  enable_run_timing = true;
  track_queue_wait = false;
  hooks_time_runs = false;
  disable_pooling = false;
}

-- `ready_ch` is the content of the channel, oldest first; `hot_key_trackers` is empty where it is nil.
pub record Scheduler : Type 0 where
  pub shards : List Shard
  pub ready_ch : List ℕ
  pub worker_count : ℕ
  pub quota_policy : QuotaPolicySnapshot
  pub quota_version : ℕ
  pub lane_reg : LaneRegistry
  pub queue_size_per_lane : ℕ
  pub state : LifecycleState
  pub inflight : ℕ
  pub shard_inflight : List ℕ
  pub lane_inflight : List ℕ
  pub obs : Obs
  pub lane_counters : List LaneCounters
  pub queue_wait_global : Accum
  pub shard_queue_wait : List Accum
  pub run_duration_global : Accum
  pub shard_run_duration : List Accum
  pub hot_key_cfg : Option HotKeyConfig
  pub hot_key_trackers : List HotKeyTracker

unfoldable pub new_scheduler : ℕ → ℕ → ℕ → LaneRegistry → Scheduler
unfolding lane_count new_shard snapshot_from_registry
new_scheduler shard_count worker_count queue_size reg = record {
  shards = replicate shard_count (new_shard (lane_count reg) queue_size);
  ready_ch = [];
  worker_count = worker_count;
  quota_policy = snapshot_from_registry reg;
  quota_version = 0;
  lane_reg = reg;
  queue_size_per_lane = queue_size;
  state = state_new;
  inflight = 0;
  shard_inflight = replicate shard_count 0;
  lane_inflight = replicate (lane_count reg) 0;
  obs = default_obs;
  lane_counters = replicate (lane_count reg) new_lane_counters;
  queue_wait_global = new_accum;
  shard_queue_wait = replicate shard_count new_accum;
  run_duration_global = new_accum;
  shard_run_duration = replicate shard_count new_accum;
  hot_key_cfg = none;
  hot_key_trackers = [];
}

unfoldable pub configure_hot_key : Scheduler → HotKeyConfig → Scheduler
unfolding new_hot_key_tracker
configure_hot_key s cfg = record s {
  hot_key_cfg = some cfg;
  hot_key_trackers =
      if not cfg.enabled || cfg.max_tracked_keys_per_shard == 0
      then []
      else replicate (length s.shards) (new_hot_key_tracker cfg);
}

-- An observation of one shard's tracker, if there is one.
abbrev pub observe : ℕ → (HotKeyTracker → HotKeyTracker) → Scheduler → Scheduler
observe i f s = record s { hot_key_trackers = update s.hot_key_trackers i f }

abbrev pub count_lane : ℕ → (LaneCounters → LaneCounters) → Scheduler → Scheduler
count_lane lane f s = record s {
  lane_counters = if s.obs.enable_counters then update s.lane_counters lane f else s.lane_counters;
}

-- `routeShardID` of internal/core/route.go. A key's hash is that of `hash/fnv`, a parameter.
unfoldable pub route_shard_id : ℕ → ℕ → ℕ
route_shard_id key_hash shard_count = key_hash % shard_count
