-- ===== src/Adaptive/Apply.antt =====
-- EvaluateAdaptiveQuota of internal/core/adaptive_quota_eval.go: the candidates, and the decisions.
use go_keylane.Base.{
  ℕ, zero, suc, ◌+◌, ◌-◌, ◌^◌, none, some, List, [], ◌∷◌, map, set, get_elem?, leb, ltb,
  if◌then◌else◌,
}
use go_keylane.Base.Floats.{Float}
use go_keylane.Quota.{max_lane_quota}
use go_keylane.Adaptive.Defs.{
  QuotaAdjustmentAction, hold, increase, decrease, QuotaAdjustmentReason, AdaptiveQuotaConfig,
  ResolvedPolicy, AdaptiveSignalSnapshot, QuotaAdjustmentDecision, AdaptiveControllerState, Lane,
  no_reason,
}
use go_keylane.Adaptive.Evaluate.{LaneOutcome, held, to_decrease, to_increase, lane_outcome}

-- laneCandidate
pub record LaneCandidate : Type 0 where
  pub lane_idx : ℕ
  pub action : QuotaAdjustmentAction
  pub reason : QuotaAdjustmentReason
  pub priority : ℕ

-- `oldQ + step`. A sum from 2 ^ 63 on is below zero in the source, and the tests that follow take it
-- as they take 0.
abbrev raised : ℕ → ℕ → ℕ
raised old step = if leb (2 ^ 63) (old + step) then 0 else old + step

-- The switch of applyCandidate. A difference below zero is 0 here: both are below MinQuota and 1.
unfoldable pub stepped : QuotaAdjustmentAction → ℕ → ℕ → ResolvedPolicy → ℕ → ℕ
stepped hold up down pol old = old
stepped increase up down pol old =
    let q = raised old up in if ltb pol.max_quota q then pol.max_quota else q
stepped decrease up down pol old =
    let q = old - down in if ltb q pol.min_quota then pol.min_quota else q

-- `if newQ < 1 { newQ = 1 }` and `if newQ > int(MaxLaneQuota) { newQ = int(MaxLaneQuota) }`
unfoldable pub clamped_quota : ℕ → ℕ
clamped_quota q =
    let low : ℕ = if ltb q 1 then 1 else q in if ltb max_lane_quota low then max_lane_quota else low

-- The two lists of candidates, in the order of the lanes from `i` on.
unfoldable pub decrease_candidates : ℕ → List LaneOutcome → List LaneCandidate
decrease_candidates i [] = []
decrease_candidates i (to_decrease why priority ∷ rest) =
    record { lane_idx = i; action = decrease; reason = why; priority = priority }
    ∷ decrease_candidates (i + 1) rest
decrease_candidates i (held why ∷ rest) = decrease_candidates (i + 1) rest
decrease_candidates i (to_increase why priority ∷ rest) = decrease_candidates (i + 1) rest

unfoldable pub increase_candidates : ℕ → List LaneOutcome → List LaneCandidate
increase_candidates i [] = []
increase_candidates i (to_increase why priority ∷ rest) =
    record { lane_idx = i; action = increase; reason = why; priority = priority }
    ∷ increase_candidates (i + 1) rest
increase_candidates i (held why ∷ rest) = increase_candidates (i + 1) rest
increase_candidates i (to_decrease why priority ∷ rest) = increase_candidates (i + 1) rest

-- The decision before the candidates are looked at. A candidate keeps the reason `none`.
abbrev held_reason : LaneOutcome → QuotaAdjustmentReason
held_reason (held why) = why
held_reason _ = no_reason

module _ {ℓ} {W : Type ℓ} where
  -- A decision with the fields that fillDecisionSignals copies.
  unfoldable pub lane_decision :
      AdaptiveSignalSnapshot W
      → Lane
      → QuotaAdjustmentAction
      → QuotaAdjustmentReason
      → ℕ
      → QuotaAdjustmentDecision W
  lane_decision snap (pol, sig) action reason new_quota = record {
    lane = pol.lane;
    class = pol.class;
    action = action;
    reason = reason;
    old_quota = sig.current_quota;
    new_quota = new_quota;
    global_pressure = snap.global_pressure;
    queue_depth = sig.queue_depth;
    in_flight = sig.in_flight;
    queue_wait_p50 = sig.queue_wait_avg;
    queue_wait_p95 = sig.queue_wait_max;
    queue_wait_p99 = sig.queue_wait_max;
    run_p50 = sig.run_avg;
    run_p95 = sig.run_max;
    run_p99 = sig.run_max;
    policy_version = snap.policy_version;
    quota_version = snap.quota_version;
  }

  unfoldable pub apply_candidate :
      AdaptiveQuotaConfig W
      → AdaptiveSignalSnapshot W
      → Lane
      → LaneCandidate
      → QuotaAdjustmentDecision W
  unfolding lane_decision stepped clamped_quota
  apply_candidate cfg snap (pol, sig) c =
      lane_decision snap (pol, sig) c.action c.reason
        (clamped_quota (stepped c.action cfg.increase_step cfg.decrease_step pol sig.current_quota))

  unfoldable pub first_decision :
      AdaptiveSignalSnapshot W → Lane → LaneOutcome → QuotaAdjustmentDecision W
  unfolding lane_decision
  first_decision snap (pol, sig) o =
      lane_decision snap (pol, sig) hold (held_reason o) sig.current_quota

  -- The loop over sorted candidates, with what is left of `maxAdj - applied`. Every candidate is of a
  -- lane that is there.
  unfoldable pub apply_candidates :
      AdaptiveQuotaConfig W
      → AdaptiveSignalSnapshot W
      → ℕ
      → List LaneCandidate
      → List (QuotaAdjustmentDecision W)
      → List (QuotaAdjustmentDecision W) × ℕ
  unfolding apply_candidate
  apply_candidates cfg snap left [] ds = (ds, left)
  apply_candidates cfg snap zero (c ∷ cs) ds = (ds, 0)
  apply_candidates cfg snap (suc left) (c ∷ cs) ds = elim (get_elem? snap.lanes c.lane_idx) [
    | none ↦ apply_candidates cfg snap left cs ds
    | some lane ↦
        apply_candidates cfg snap left cs (set ds c.lane_idx (apply_candidate cfg snap lane c))
  ]

module _ {ℓ} {W : Type ℓ} ⦃f : Float W⦄ where
  -- The outcome of each lane.
  unfoldable pub outcomes :
      AdaptiveQuotaConfig W
      → AdaptiveSignalSnapshot W
      → AdaptiveControllerState W
      → ℕ
      → List LaneOutcome
  unfolding lane_outcome
  outcomes cfg snap state now = map (lane_outcome cfg state now snap.global_pressure) snap.lanes

  -- The decision of each lane while it is no candidate.
  unfoldable pub first_decisions :
      AdaptiveQuotaConfig W
      → AdaptiveSignalSnapshot W
      → AdaptiveControllerState W
      → ℕ
      → List (QuotaAdjustmentDecision W)
  unfolding first_decision lane_outcome
  first_decisions cfg snap state now =
      map (λ l. first_decision snap l (lane_outcome cfg state now snap.global_pressure l))
        snap.lanes

  -- `maxAdj`
  abbrev pub max_adjustments : AdaptiveQuotaConfig W → ℕ
  max_adjustments cfg =
      if ltb cfg.max_adjustments_per_tick 1 then 1 else cfg.max_adjustments_per_tick

  -- `sort` is `sort.Slice` by priority, which leaves the order of equal priorities open.
  unfoldable pub adjusted_decisions :
      (List LaneCandidate → List LaneCandidate)
      → AdaptiveQuotaConfig W
      → AdaptiveSignalSnapshot W
      → List LaneOutcome
      → List (QuotaAdjustmentDecision W)
      → List (QuotaAdjustmentDecision W)
  unfolding decrease_candidates increase_candidates apply_candidates
  adjusted_decisions sort cfg snap os ds =
      let lowered =
        apply_candidates cfg snap (max_adjustments cfg) (sort (decrease_candidates 0 os)) ds in
      (apply_candidates cfg snap lowered.1 (sort (increase_candidates 0 os)) lowered.0).0

  unfoldable pub evaluate_adaptive_quota :
      (List LaneCandidate → List LaneCandidate)
      → AdaptiveQuotaConfig W
      → AdaptiveSignalSnapshot W
      → AdaptiveControllerState W
      → ℕ
      → List (QuotaAdjustmentDecision W)
  unfolding outcomes first_decisions adjusted_decisions
  evaluate_adaptive_quota sort cfg snap state now =
      if cfg.enabled
      then adjusted_decisions sort cfg snap (outcomes cfg snap state now)
          (first_decisions cfg snap state now)
      else []
