-- ===== src/Adaptive/Counted.antt =====
-- How many quotas EvaluateAdaptiveQuota of internal/core/adaptive_quota_eval.go changes at a time.
use go_keylane.Base.{
  ℕ, zero, suc, ◌+◌, ◌≤◌, ◌≡◌, refl, inl, inr, Bool, true, false, List, [], ◌∷◌, map, set,
  get_elem?, arith, Option-cases, if◌then◌else◌,
}
use go_keylane.Base.Floats.{Float}
use go_keylane.Adaptive.Defs.{
  AdaptiveQuotaConfig, AdaptiveSignalSnapshot, QuotaAdjustmentDecision, AdaptiveControllerState,
  Lane,
}
use go_keylane.Adaptive.Evaluate.{LaneOutcome, lane_outcome}
use go_keylane.Adaptive.Apply.{
  LaneCandidate, decrease_candidates, increase_candidates, apply_candidate, apply_candidates,
  first_decision, first_decisions, outcomes, max_adjustments, adjusted_decisions, lane_decision,
  evaluate_adaptive_quota,
}
use go_keylane.Adaptive.Tick.{is_hold}

module _ {ℓ} {W : Type ℓ} where
  abbrev weight : QuotaAdjustmentDecision W → ℕ
  weight d = if is_hold d.action then 0 else 1

  weight-le : (d : QuotaAdjustmentDecision W) → weight d ≤ 1
  weight-le d = ground arith

  -- The decisions that are not to hold.
  unfoldable pub adjustments : List (QuotaAdjustmentDecision W) → ℕ
  adjustments [] = 0
  adjustments (d ∷ ds) = weight d + adjustments ds

  adjustments-set :
      (ds : List (QuotaAdjustmentDecision W)) (j : ℕ) (d : QuotaAdjustmentDecision W)
      → adjustments (set ds j d) ≤ adjustments ds + 1
  unfolding adjustments
  adjustments-set [] j d = omega arith
  adjustments-set (x ∷ ds) zero d = omega (arith, weight-le d)
  adjustments-set (x ∷ ds) (suc j) d = omega (arith, adjustments-set ds j d)

  module _ (cfg : AdaptiveQuotaConfig W) (snap : AdaptiveSignalSnapshot W) where
    -- What is changed and what may still be changed, after the loop over the candidates.
    abbrev Spent : ℕ → List (QuotaAdjustmentDecision W) × ℕ → Type 0
    Spent n r = adjustments r.0 + r.1 ≤ n

    applied-Spent :
        (left : ℕ) (cs : List LaneCandidate) (ds : List (QuotaAdjustmentDecision W))
        → Spent (adjustments ds + left) (apply_candidates cfg snap left cs ds)
    unfolding apply_candidates
    applied-Spent left [] ds = omega arith
    applied-Spent zero (c ∷ cs) ds = omega arith
    applied-Spent (suc left) (c ∷ cs) ds = elim (Option-cases (get_elem? snap.lanes c.lane_idx)) [
      | inl e ↦ rw (e, apply_candidates) (let h = applied-Spent left cs ds in omega arith)
      | inr (l, e) ↦
          rw (e, apply_candidates)
            (let d : QuotaAdjustmentDecision W = apply_candidate cfg snap l c in
              let h = applied-Spent left cs (set ds c.lane_idx d) in
              let one = adjustments-set ds c.lane_idx d in omega arith)
    ]

    first_none :
        (g : Lane → LaneOutcome) (ls : List Lane)
        → adjustments (map (λ l. first_decision snap l (g l)) ls) ≡ 0
    unfolding adjustments first_decision lane_decision
    first_none g [] = refl
    first_none g (l ∷ ls) = omega (arith, first_none g ls)

module _ {ℓ} {W : Type ℓ} ⦃f : Float W⦄ where
  if_below :
      (b : Bool) (ds : List (QuotaAdjustmentDecision W)) (n : ℕ)
      → adjustments ds ≤ n
      → adjustments (if b then ds else []) ≤ n
  unfolding adjustments
  if_below true ds n h = h
  if_below false ds n h = omega arith

  -- Whatever the signals are, and however equal priorities are sorted, an evaluation changes at most
  -- MaxAdjustmentsPerTick quotas, or one where that is not set.
  pub evaluate_adaptive_quota-limit :
      (sort : List LaneCandidate → List LaneCandidate) (cfg : AdaptiveQuotaConfig W)
      (snap : AdaptiveSignalSnapshot W) (state : AdaptiveControllerState W) (now : ℕ)
      → adjustments (evaluate_adaptive_quota sort cfg snap state now) ≤ max_adjustments cfg
  unfolding evaluate_adaptive_quota adjusted_decisions first_decisions
  evaluate_adaptive_quota-limit sort cfg snap state now =
      let ds : List (QuotaAdjustmentDecision W) = first_decisions cfg snap state now in
      let os : List LaneOutcome = outcomes cfg snap state now in
      let none_yet =
        first_none cfg snap (lane_outcome cfg state now snap.global_pressure) snap.lanes in
      let low =
        apply_candidates cfg snap (max_adjustments cfg) (sort (decrease_candidates 0 os)) ds in
      let h = applied-Spent cfg snap (max_adjustments cfg) (sort (decrease_candidates 0 os)) ds in
      let k = applied-Spent cfg snap low.1 (sort (increase_candidates 0 os)) low.0 in
      if_below cfg.enabled _ (max_adjustments cfg) (omega arith)
