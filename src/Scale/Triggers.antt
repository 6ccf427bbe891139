-- ===== src/Scale/Triggers.antt =====
-- scale_signal_policy.go, and what fires a signal in scale_signal.go (both of internal/core).
use go_keylane.Base.{ℕ, Bool, true, false, not, ◌&&◌, ◌||◌, List, [], ◌∷◌, ltb, if◌then◌else◌}
use go_keylane.Base.Ints.{ℤ, pos, int_ltb, int_leb}
use go_keylane.Base.Floats.{Float}

pub data ScaleReason : Type 0 where
  no_reason queue_depth_high queue_wait_high admission_reject_high admission_shed_high : ScaleReason
  worker_saturated many_hot_shards distributed_pressure localized_hot_key : ScaleReason
  insufficient_data : ScaleReason

pub data ScaleScope : Type 0 where
  no_scope global shard lane hot_key unknown : ScaleScope

pub data ShardPressureClass : Type 0 where
  healthy localized_key lane_dominant shard_hot distributed worker_bound unknown_class :
      ShardPressureClass

unfoldable pub is_distributed : ShardPressureClass → Bool
is_distributed distributed = true
is_distributed _ = false

unfoldable pub is_worker_bound : ShardPressureClass → Bool
is_worker_bound worker_bound = true
is_worker_bound _ = false

pub record AutoscalingSignalConfig {ℓ} (W : Type ℓ) : Type ℓ where
  pub enabled : Bool
  pub window : ℤ
  pub consecutive_windows : ℤ
  pub queue_depth_ratio_threshold : W
  pub queue_wait_max_threshold : ℤ
  pub admission_reject_rate_threshold : W
  pub admission_shed_rate_threshold : W
  pub worker_busy_ratio_threshold : W
  pub hot_shard_ratio_threshold : W
  pub many_hot_shards_threshold : ℤ
  pub localized_hot_key_ratio_threshold : W

pub record ScaleSignalInput {ℓ} (W : Type ℓ) : Type ℓ where
  pub queue_depth_total : ℤ
  pub queue_capacity_total : ℤ
  pub queue_wait_max : ℤ
  pub admission_rejected_rate : W
  pub admission_shed_rate : W
  pub admission_throttled_rate : W
  pub worker_busy_ratio : W
  pub hot_shard_count : ℤ
  pub total_shard_count : ℤ
  pub hot_shard_ratio : W
  pub hot_key_candidate_count : ℤ
  pub localized_hot_key_ratio : W
  pub shard_pressure_class : ShardPressureClass

pub record Trigger : Type 0 where
  pub reason : ScaleReason
  pub fired : Bool
  pub priority : ℕ

-- The variables of the loop over the triggers.
pub record Best : Type 0 where
  pub reason : ScaleReason
  pub scope : ScaleScope
  pub unhealthy : Bool
  pub priority : ℕ

abbrev pub no_best : Best
no_best = record { reason = no_reason; scope = no_scope; unhealthy = false; priority = 999 }

-- `if cond { triggers = append(triggers, trigger{reason, true, priority}) }`, before the rest.
unfoldable pub append_if : Bool → ScaleReason → ℕ → List Trigger → List Trigger
append_if cond reason priority rest =
    if cond then record { reason = reason; fired = true; priority = priority } ∷ rest else rest

abbrev int_or : ℤ → ℤ → ℤ
int_or x def = if int_leb x (pos 0) then def else x

abbrev is_one : ℤ → Bool
is_one n = int_leb n (pos 1) && int_leb (pos 1) n

module _ {ℓ} {W : Type ℓ} ⦃f : Float W⦄ where
  open f use {ratio, lt, le}

  abbrev ratio_or : W → W → W
  ratio_or x def = if le x (ratio 0 1) then def else x

  unfoldable pub normalize_autoscaling_signal_config :
      AutoscalingSignalConfig W → AutoscalingSignalConfig W
  normalize_autoscaling_signal_config cfg = if not cfg.enabled then cfg else record {
    enabled = cfg.enabled;
    window = int_or cfg.window (pos 30_000_000_000);
    consecutive_windows = int_or cfg.consecutive_windows (pos 2);
    queue_depth_ratio_threshold = ratio_or cfg.queue_depth_ratio_threshold (ratio 70 100);
    queue_wait_max_threshold = int_or cfg.queue_wait_max_threshold (pos 50_000_000);
    admission_reject_rate_threshold = ratio_or cfg.admission_reject_rate_threshold (ratio 5 100);
    admission_shed_rate_threshold = ratio_or cfg.admission_shed_rate_threshold (ratio 1 100);
    worker_busy_ratio_threshold = ratio_or cfg.worker_busy_ratio_threshold (ratio 85 100);
    hot_shard_ratio_threshold = ratio_or cfg.hot_shard_ratio_threshold (ratio 70 100);
    many_hot_shards_threshold = int_or cfg.many_hot_shards_threshold (pos 4);
    localized_hot_key_ratio_threshold =
        ratio_or cfg.localized_hot_key_ratio_threshold (ratio 40 100);
  }

  unfoldable pub scope_for_scale_trigger : ScaleReason → ScaleSignalInput W → ScaleScope
  unfolding is_distributed is_worker_bound
  scope_for_scale_trigger many_hot_shards inp =
      if int_leb inp.hot_shard_count (pos 1) then shard else global
  scope_for_scale_trigger worker_saturated inp =
      if is_worker_bound inp.shard_pressure_class
      then global
      else if is_one inp.hot_shard_count
      then shard
      else global
  scope_for_scale_trigger queue_wait_high inp =
      if is_one inp.hot_shard_count
        && not (is_distributed inp.shard_pressure_class)
        && not (is_worker_bound inp.shard_pressure_class)
      then shard
      else global
  scope_for_scale_trigger queue_depth_high inp =
      if is_one inp.hot_shard_count
        && not (is_distributed inp.shard_pressure_class)
        && not (is_worker_bound inp.shard_pressure_class)
      then shard
      else global
  scope_for_scale_trigger _ inp = global

  unfoldable pub triggers : ScaleSignalInput W → AutoscalingSignalConfig W → W → List Trigger
  triggers inp cfg depth_ratio =
      append_if (le cfg.admission_shed_rate_threshold inp.admission_shed_rate) admission_shed_high 1
        (append_if (le cfg.admission_reject_rate_threshold inp.admission_rejected_rate)
          admission_reject_high 2
          (append_if
            (is_distributed inp.shard_pressure_class || is_worker_bound inp.shard_pressure_class)
            distributed_pressure 3
            (append_if
              (int_leb cfg.many_hot_shards_threshold inp.hot_shard_count
                || le cfg.hot_shard_ratio_threshold inp.hot_shard_ratio)
              many_hot_shards 4
              (append_if
                (le cfg.worker_busy_ratio_threshold inp.worker_busy_ratio
                  || is_worker_bound inp.shard_pressure_class)
                worker_saturated 5
                (append_if
                  (int_ltb (pos 0) cfg.queue_wait_max_threshold
                    && int_leb cfg.queue_wait_max_threshold inp.queue_wait_max)
                  queue_wait_high 6
                  (append_if (le cfg.queue_depth_ratio_threshold depth_ratio) queue_depth_high 7
                    []))))))

  unfoldable pub consider : ScaleSignalInput W → Trigger → Best → Best
  unfolding scope_for_scale_trigger
  consider inp t best =
      if not t.fired
      then best
      else if ltb t.priority best.priority
      then record {
        reason = t.reason;
        scope = scope_for_scale_trigger t.reason inp;
        unhealthy = true;
        priority = t.priority;
      }
      else record best { unhealthy = true }

  unfoldable pub best_trigger : ScaleSignalInput W → List Trigger → Best → Best
  unfolding consider
  best_trigger inp [] best = best
  best_trigger inp (t ∷ ts) best = best_trigger inp ts (consider inp t best)

  unfoldable pub evaluate_scale_triggers :
      ScaleSignalInput W → AutoscalingSignalConfig W → W → ScaleReason × ScaleScope × Bool
  unfolding best_trigger triggers append_if is_distributed is_worker_bound
  evaluate_scale_triggers inp cfg depth_ratio =
      let best : Best = best_trigger inp (triggers inp cfg depth_ratio) no_best in
      if not best.unhealthy then (no_reason, no_scope, false) else (best.reason, best.scope, true)
