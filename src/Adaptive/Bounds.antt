-- ===== src/Adaptive/Bounds.antt =====
-- What the decisions of EvaluateAdaptiveQuota in internal/core/adaptive_quota_eval.go change.
use go_keylane.Base.{
  ℕ, zero, suc, ◌+◌, ◌≡◌, sym, ap, ◌∙◌, subst, Bool, true, false, some, List, [], ◌∷◌, map, set,
  get_elem?, All, All-get, arith, if◌then◌else◌,
}
use go_keylane.Base.Floats.{Float}
use go_keylane.Adaptive.Defs.{
  AdaptiveQuotaConfig, AdaptiveSignalSnapshot, QuotaAdjustmentDecision, AdaptiveControllerState,
  Lane,
}
use go_keylane.Adaptive.Evaluate.{LaneOutcome, held, to_decrease, to_increase, lane_outcome}
use go_keylane.Adaptive.Apply.{
  LaneCandidate, decrease_candidates, increase_candidates, apply_candidate, apply_candidates,
  first_decision, first_decisions, outcomes, adjusted_decisions, evaluate_adaptive_quota,
}
use go_keylane.Adaptive.Stepping.{
  IsValidLane, HasSteps, Adjusts, Fits, Sound, lane_outcome-Sound, apply_candidate-Adjusts,
  first_decision-Adjusts,
}

-- A candidate of a lane that is there, and that has room for it.
abbrev pub Placed : List Lane → LaneCandidate → Type 0
Placed lanes c = (l : Lane) × (get_elem? lanes c.lane_idx ≡ some l) × Fits l c

-- What is used of `sort.Slice`: nothing is in the result that was not in the list.
abbrev pub Keeps : (List LaneCandidate → List LaneCandidate) → Type 1
Keeps sort = (P : LaneCandidate → Type 0) (cs : List LaneCandidate) → All P cs → All P (sort cs)

-- `rest` is the list `all` from `i` on.
abbrev IsFrom : List Lane → ℕ → List Lane → Type 0
IsFrom all i rest = (k : ℕ) → get_elem? all (i + k) ≡ get_elem? rest k

IsFrom-head :
    (all : List Lane) (i : ℕ) (l : Lane) (rest : List Lane)
    → IsFrom all i (l ∷ rest)
    → get_elem? all i ≡ some l
IsFrom-head all i l rest h = let e : i ≡ i + 0 = omega arith in ap (get_elem? all) e ∙ h 0

IsFrom-tail :
    (all : List Lane) (i : ℕ) (l : Lane) (rest : List Lane)
    → IsFrom all i (l ∷ rest)
    → IsFrom all (i + 1) rest
IsFrom-tail all i l rest h k =
    let e : i + 1 + k ≡ i + suc k = omega arith in ap (get_elem? all) e ∙ h (suc k)

decrease-head :
    (all : List Lane) (i : ℕ) (l : Lane) (o : LaneOutcome) (os : List LaneOutcome)
    → get_elem? all i ≡ some l
    → Sound l o
    → All (Placed all) (decrease_candidates (i + 1) os)
    → All (Placed all) (decrease_candidates i (o ∷ os))
unfolding decrease_candidates
decrease-head all i l (held why) os e s p = p
decrease-head all i l (to_decrease why n) os e s p = ((l, e, s), p)
decrease-head all i l (to_increase why n) os e s p = p

increase-head :
    (all : List Lane) (i : ℕ) (l : Lane) (o : LaneOutcome) (os : List LaneOutcome)
    → get_elem? all i ≡ some l
    → Sound l o
    → All (Placed all) (increase_candidates (i + 1) os)
    → All (Placed all) (increase_candidates i (o ∷ os))
unfolding increase_candidates
increase-head all i l (held why) os e s p = p
increase-head all i l (to_increase why n) os e s p = ((l, e, s), p)
increase-head all i l (to_decrease why n) os e s p = p

module _ (g : Lane → LaneOutcome) (sound : (l : Lane) → Sound l (g l)) (all : List Lane) where
  decrease-Placed :
      (i : ℕ) (rest : List Lane)
      → IsFrom all i rest
      → All (Placed all) (decrease_candidates i (map g rest))
  unfolding decrease_candidates
  decrease-Placed i [] h = tt
  decrease-Placed i (l ∷ rest) h =
      decrease-head all i l (g l) (map g rest) (IsFrom-head all i l rest h) (sound l)
        (decrease-Placed (i + 1) rest (IsFrom-tail all i l rest h))

  increase-Placed :
      (i : ℕ) (rest : List Lane)
      → IsFrom all i rest
      → All (Placed all) (increase_candidates i (map g rest))
  unfolding increase_candidates
  increase-Placed i [] h = tt
  increase-Placed i (l ∷ rest) h =
      increase-head all i l (g l) (map g rest) (IsFrom-head all i l rest h) (sound l)
        (increase-Placed (i + 1) rest (IsFrom-tail all i l rest h))

-- Each decision of the second list adjusts the lane that stands in its place in the first.
abbrev pub AllAdjust {ℓ} :
    {W : Type ℓ} → AdaptiveQuotaConfig W → List Lane → List (QuotaAdjustmentDecision W) → Type 0
AllAdjust cfg [] [] = Unit
AllAdjust cfg (l ∷ ls) (d ∷ ds) = Adjusts cfg l d × AllAdjust cfg ls ds
AllAdjust cfg ls ds = ⊥

same_lane : (l x : Lane) → some x ≡ some l → x ≡ l
same_lane l x e = cc

if_on {ℓ} :
    {A : Type ℓ} (b : Bool) (P : A → Type 0) {x : A} (y : A)
    → b ≡ true
    → P x
    → P (if b then x else y)
if_on true P y e p = p
if_on false P y e p = cc

module _ {ℓ} {W : Type ℓ} (cfg : AdaptiveQuotaConfig W) where
  set-AllAdjust :
      (ls : List Lane) (j : ℕ) (l : Lane) (d : QuotaAdjustmentDecision W)
      (ds : List (QuotaAdjustmentDecision W))
      → get_elem? ls j ≡ some l
      → Adjusts cfg l d
      → AllAdjust cfg ls ds
      → AllAdjust cfg ls (set ds j d)
  set-AllAdjust [] j l d [] at a all = all
  set-AllAdjust (x ∷ ls) zero l d (y ∷ ds) at a (p, ps) =
      (subst (λ z. Adjusts cfg z d) (sym (same_lane l x at)) a, ps)
  set-AllAdjust (x ∷ ls) (suc j) l d (y ∷ ds) at a (p, ps) = (p, set-AllAdjust ls j l d ds at a ps)
  set-AllAdjust [] j l d (y ∷ ds) at a all = elim all [ ]
  set-AllAdjust (x ∷ ls) j l d [] at a all = elim all [ ]

  module _ (snap : AdaptiveSignalSnapshot W) where
    apply-AllAdjust :
        (left : ℕ) (cs : List LaneCandidate) (ds : List (QuotaAdjustmentDecision W))
        → HasSteps cfg
        → All IsValidLane snap.lanes
        → All (Placed snap.lanes) cs
        → AllAdjust cfg snap.lanes ds
        → AllAdjust cfg snap.lanes (apply_candidates cfg snap left cs ds).0
    unfolding apply_candidates
    apply-AllAdjust left [] ds steps valid placed all = all
    apply-AllAdjust zero (c ∷ cs) ds steps valid placed all = all
    apply-AllAdjust (suc left) (c ∷ cs) ds steps valid ((l, at, fits), placed) all =
        let a : Adjusts cfg l (apply_candidate cfg snap l c) =
          apply_candidate-Adjusts cfg snap l c steps
            (All-get IsValidLane snap.lanes c.lane_idx valid at) fits in
        rw (at, apply_candidates)
          (apply-AllAdjust left cs (set ds c.lane_idx (apply_candidate cfg snap l c)) steps valid
            placed
            (set-AllAdjust snap.lanes c.lane_idx l (apply_candidate cfg snap l c) ds at a all))

    first-AllAdjust :
        (g : Lane → LaneOutcome) (ls : List Lane)
        → AllAdjust cfg ls (map (λ l. first_decision snap l (g l)) ls)
    first-AllAdjust g [] = tt
    first-AllAdjust g (l ∷ ls) = (first_decision-Adjusts cfg snap l (g l), first-AllAdjust g ls)

module _ {ℓ} {W : Type ℓ} ⦃f : Float W⦄ where
  -- Where the controller is enabled, its steps are from 1 to 2^62, and the quota and the bounds of
  -- every lane are from 1 to 1024, there is one decision for each lane: it keeps the lane's quota, or
  -- raises or lowers it, as it says, by at most a step and within the lane's bounds.
  pub evaluate_adaptive_quota-AllAdjust :
      (sort : List LaneCandidate → List LaneCandidate) (cfg : AdaptiveQuotaConfig W)
      (snap : AdaptiveSignalSnapshot W) (state : AdaptiveControllerState W) (now : ℕ)
      → Keeps sort
      → cfg.enabled ≡ true
      → HasSteps cfg
      → All IsValidLane snap.lanes
      → AllAdjust cfg snap.lanes (evaluate_adaptive_quota sort cfg snap state now)
  unfolding evaluate_adaptive_quota adjusted_decisions outcomes first_decisions
  evaluate_adaptive_quota-AllAdjust sort cfg snap state now keeps on steps valid =
      let g : Lane → LaneOutcome = lane_outcome cfg state now snap.global_pressure in
      let sound : (l : Lane) → Sound l (g l) =
        lane_outcome-Sound cfg state now snap.global_pressure in
      let whole : IsFrom snap.lanes 0 snap.lanes =
        λ k. (let e : 0 + k ≡ k = omega arith in ap (get_elem? snap.lanes) e) in
      if_on cfg.enabled (AllAdjust cfg snap.lanes) _ on (
        apply-AllAdjust cfg snap _ _ _ steps valid
          (keeps (Placed snap.lanes) _ (increase-Placed g sound snap.lanes 0 snap.lanes whole))
          (apply-AllAdjust cfg snap _ _ _ steps valid
            (keeps (Placed snap.lanes) _ (decrease-Placed g sound snap.lanes 0 snap.lanes whole))
            (first-AllAdjust cfg snap g snap.lanes)))
