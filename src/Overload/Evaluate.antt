-- ===== src/Overload/Evaluate.antt =====
-- evaluateOverload of internal/core/overload_policy.go.
use go_keylane.Base.{ℕ, false, ◌&&◌, Option, none, some, get_elem?, leb, if◌then◌else◌}
use go_keylane.Base.Ints.{pos}
use go_keylane.Base.Floats.{Float}
use go_keylane.Failure.Defs.{OverloadAction, keep, reject, shed, degrade}
use go_keylane.Retry.Suppression.{LaneClass, background, best_effort}
use go_keylane.Overload.Defs.{
  OverloadReason, no_reason, global_pressure_high, lane_pressure_high, lane_depth_exceeded,
  queue_full, queue_closed, best_effort_shedding, background_shedding, degrade_preferred,
  LaneOverloadEntry, OverloadPolicySnapshot, OverloadSignals, OverloadEvalResult,
}

-- The reason for which a lane of the class is shed, if it may be.
abbrev pub shedding_reason : LaneClass → Option OverloadReason
shedding_reason best_effort = some best_effort_shedding
shedding_reason background = some background_shedding
shedding_reason _ = none

module _ {ℓ} {W : Type ℓ} ⦃f : Float W⦄ where
  open f use {ratio, lt, le}

  -- The entry of a lane, where the snapshot has one. A lane's id is not negative here.
  unfoldable pub entry_of : OverloadPolicySnapshot W → ℕ → LaneOverloadEntry W
  entry_of snap lane = elim (get_elem? snap.lanes lane) [ some e ↦ e | none ↦ snap.default_policy ]

  unfoldable pub overload_decision_from_entry :
      OverloadPolicySnapshot W
      → ℕ
      → OverloadSignals W
      → OverloadAction
      → OverloadReason
      → OverloadEvalResult W
  unfolding entry_of
  overload_decision_from_entry snap lane signals action reason =
      let e : LaneOverloadEntry W = entry_of snap lane in
      record {
        action = action;
        reason = reason;
        class = e.class;
        pressure = signals.global_pressure;
        lane_depth = signals.lane_depth;
        max_depth = e.max_queue_depth;
        retry_after = e.retry_after;
        min_backoff = e.min_backoff;
        max_backoff = e.max_backoff;
        jitter = e.jitter;
        policy_version = snap.version;
      }

  -- The closure `keep`.
  unfoldable pub keep_result :
      OverloadPolicySnapshot W → OverloadSignals W → LaneOverloadEntry W → OverloadEvalResult W
  keep_result snap signals e = record {
    action = keep;
    reason = no_reason;
    class = e.class;
    pressure = signals.global_pressure;
    lane_depth = signals.lane_depth;
    max_depth = e.max_queue_depth;
    retry_after = pos 0;
    min_backoff = pos 0;
    max_backoff = pos 0;
    jitter = false;
    policy_version = snap.version;
  }

  -- The action and its reason for a lane below its depth, by the pressure.
  unfoldable pub by_ratio : LaneOverloadEntry W → W → OverloadAction × OverloadReason
  by_ratio e pressure =
      let rest : OverloadAction × OverloadReason =
        if lt e.degrade_above_ratio (ratio 1 1) && le e.degrade_above_ratio pressure
        then (degrade, degrade_preferred)
        else if le e.reject_above_ratio pressure
        then (reject, if le (ratio 9 10) pressure then global_pressure_high else lane_pressure_high)
        else (keep, no_reason) in
      if lt e.shed_above_ratio (ratio 1 1) && le e.shed_above_ratio pressure
      then elim (shedding_reason e.class) [ some r ↦ (shed, r) | none ↦ rest ]
      else rest

  unfoldable pub evaluate_overload :
      OverloadPolicySnapshot W → ℕ → OverloadSignals W → OverloadEvalResult W
  unfolding overload_decision_from_entry keep_result by_ratio
  evaluate_overload snap lane signals =
      let decide : OverloadAction × OverloadReason → OverloadEvalResult W =
        λ d. overload_decision_from_entry snap lane signals d.0 d.1 in
      if signals.queue_closed
      then decide (reject, queue_closed)
      else if signals.queue_full
      then decide (reject, queue_full)
      else elim (get_elem? snap.lanes lane) [
        | none ↦ decide (reject, global_pressure_high)
        | some e ↦
            if leb e.max_queue_depth signals.lane_depth
            then decide (reject, lane_depth_exceeded)
            else elim (by_ratio e signals.global_pressure).0 [
              | keep ↦ keep_result snap signals e
              | _ ↦ decide (by_ratio e signals.global_pressure)
            ]
      ]
