-- ===== src/Adaptive/Defs.antt =====
-- The types of internal/core/adaptive_quota_types.go. Quotas and steps are `int` in the source; those
-- here are never below zero, as Adaptive.Config and Adaptive.Resolve say.
use go_keylane.Base.{ℕ, Bool, String, List, [], ◌∷◌, ◌++◌, length, leb, drop, if◌then◌else◌}
use go_keylane.Base.Ints.{ℤ}
use go_keylane.Base.Dict.{insert}
use go_keylane.Retry.Suppression.{LaneClass}

pub data QuotaAdjustmentAction : Type 0 where
  hold increase decrease : QuotaAdjustmentAction

-- The empty text of the source is `no_text`, which no decision carries.
pub data QuotaAdjustmentReason : Type 0 where
  no_reason critical_queue_wait_high normal_queue_wait_high : QuotaAdjustmentReason
  global_pressure_high background_pressure_high best_effort_pressure_high : QuotaAdjustmentReason
  runtime_too_high cooldown_active at_min_bound at_max_bound : QuotaAdjustmentReason
  insufficient_samples increase_disabled decrease_disabled warmup_active : QuotaAdjustmentReason
  neutral_pressure background_queue_wait_high queue_full update_failed : QuotaAdjustmentReason

pub record AdaptiveQuotaConfig {ℓ} (W : Type ℓ) : Type ℓ where
  pub enabled : Bool
  pub evaluation_interval : ℤ
  pub warmup_duration : ℤ
  pub cooldown_duration : ℤ
  pub pressure_high : W
  pub pressure_low : W
  pub queue_wait_high : ℤ
  pub run_time_high : ℤ
  pub increase_step : ℕ
  pub decrease_step : ℕ
  pub max_adjustments_per_tick : ℕ
  pub enable_increase : Bool
  pub enable_decrease : Bool
  pub emit_hold_decisions : Bool

-- resolvedLaneAdaptivePolicy
pub record ResolvedPolicy : Type 0 where
  pub lane_id : ℕ
  pub lane : String
  pub class : LaneClass
  pub enabled : Bool
  pub min_quota : ℕ
  pub max_quota : ℕ
  pub allow_increase : Bool
  pub allow_decrease : Bool
  pub target_queue_wait : ℤ
  pub target_run_time : ℤ

pub record LaneAdaptiveSignal : Type 0 where
  pub current_quota : ℕ
  pub queue_depth : ℕ
  pub in_flight : ℕ
  pub queue_wait_avg : ℤ
  pub queue_wait_max : ℤ
  pub queue_wait_samples : ℕ
  pub run_avg : ℤ
  pub run_max : ℤ
  pub overload_reject_count : ℕ
  pub overload_shed_count : ℕ
  pub overload_degrade_count : ℕ
  pub queue_full_count : ℕ

-- `policies` and the signals of the snapshot have one entry for each lane of the registry: they are
-- one list of pairs here.
abbrev pub Lane : Type 0
Lane = ResolvedPolicy × LaneAdaptiveSignal

pub record AdaptiveSignalSnapshot {ℓ} (W : Type ℓ) : Type ℓ where
  pub global_pressure : W
  pub lanes : List Lane
  pub policy_version : ℕ
  pub quota_version : ℕ

pub record QuotaAdjustmentDecision {ℓ} (W : Type ℓ) : Type ℓ where
  pub lane : String
  pub class : LaneClass
  pub action : QuotaAdjustmentAction
  pub reason : QuotaAdjustmentReason
  pub old_quota : ℕ
  pub new_quota : ℕ
  pub global_pressure : W
  pub queue_depth : ℕ
  pub in_flight : ℕ
  pub queue_wait_p50 : ℤ
  pub queue_wait_p95 : ℤ
  pub queue_wait_p99 : ℤ
  pub run_p50 : ℤ
  pub run_p95 : ℤ
  pub run_p99 : ℤ
  pub policy_version : ℕ
  pub quota_version : ℕ

-- Times are nanoseconds of the clock; the map from lane ids is an association list.
pub record AdaptiveControllerState {ℓ} (W : Type ℓ) : Type ℓ where
  pub started_at : ℕ
  pub last_adjusted : List (ℕ × ℕ)
  pub last_decisions : List (QuotaAdjustmentDecision W)
  pub tick_count : ℕ

abbrev pub max_last_decisions : ℕ
max_last_decisions = 16

module _ {ℓ} {W : Type ℓ} where
  unfoldable pub new_adaptive_controller_state : ℕ → AdaptiveControllerState W
  new_adaptive_controller_state started_at = record {
    started_at = started_at;
    last_adjusted = [];
    last_decisions = [];
    tick_count = 0;
  }

  unfoldable pub record_applied : AdaptiveControllerState W → ℕ → ℕ → AdaptiveControllerState W
  unfolding insert
  record_applied s lane_id now = record s { last_adjusted = insert lane_id now s.last_adjusted }

  -- The oldest decision makes room for a new one.
  unfoldable pub append_decision :
      AdaptiveControllerState W → QuotaAdjustmentDecision W → AdaptiveControllerState W
  append_decision s d =
      let kept : List (QuotaAdjustmentDecision W) =
        if leb max_last_decisions (length s.last_decisions)
        then drop 1 s.last_decisions
        else s.last_decisions in
      record s { last_decisions = kept ++ d ∷ [] }
