-- ===== src/Adaptive/Stepping.antt =====
-- How far applyCandidate of internal/core/adaptive_quota_eval.go moves a quota.
use go_keylane.Base.{
  ℕ, ◌+◌, ◌-◌, ◌^◌, ◌≤◌, ◌<◌, ◌≡◌, refl, Bool, true, false, not, ◌&&◌, ◌||◌, Option, none, some,
  leb, ltb, arith, if◌then◌else◌,
}
use go_keylane.Base.Ints.{pos, int_ltb}
use go_keylane.Base.Floats.{Float}
use go_keylane.Adaptive.Defs.{
  QuotaAdjustmentAction, hold, increase, decrease, QuotaAdjustmentReason, AdaptiveQuotaConfig,
  ResolvedPolicy, AdaptiveSignalSnapshot, QuotaAdjustmentDecision, AdaptiveControllerState, Lane,
}
use go_keylane.Adaptive.Evaluate.{
  LaneOutcome, held, to_decrease, to_increase, lane_outcome, try_decrease, try_increase,
  queue_wait_high, increase_reason_for_class, decrease_reason_for_class, increase_priority,
  decrease_priority, localized_overload_decrease_eligible, is_warming_up, is_cooling_down,
  rest_reason, min_queue_wait_samples,
}
use go_keylane.Adaptive.Apply.{
  LaneCandidate, stepped, clamped_quota, apply_candidate, lane_decision, first_decision,
}

-- A lane whose quota and whose bounds are from 1 to 1024.
abbrev pub IsValidLane : Lane → Type 0
IsValidLane (pol, sig) =
    (1 ≤ pol.min_quota)
    × (pol.min_quota ≤ 1024)
    × (pol.max_quota ≤ 1024)
    × (1 ≤ sig.current_quota)
    × (sig.current_quota ≤ 1024)

-- The steps are above zero, and so small that no sum wraps.
abbrev pub HasSteps {ℓ} : {W : Type ℓ} → AdaptiveQuotaConfig W → Type 0
HasSteps cfg = (1 ≤ cfg.increase_step) × (cfg.increase_step ≤ 2 ^ 62) × (1 ≤ cfg.decrease_step)

-- A new quota that the action leads to.
abbrev Moves : ℕ → ℕ → ResolvedPolicy → QuotaAdjustmentAction → ℕ → ℕ → Type 0
Moves up down pol hold old new = new ≡ old
Moves up down pol increase old new = (old < new) × (new ≤ pol.max_quota) × (new ≤ old + up)
Moves up down pol decrease old new = (pol.min_quota ≤ new) × (new < old) × (old ≤ new + down)

-- There is room for the action.
abbrev LeavesRoom : ResolvedPolicy → QuotaAdjustmentAction → ℕ → Type 0
LeavesRoom pol hold old = 1 ≤ old
LeavesRoom pol increase old = old < pol.max_quota
LeavesRoom pol decrease old = pol.min_quota < old

-- A candidate has room in its lane.
abbrev pub Fits : Lane → LaneCandidate → Type 0
Fits (pol, sig) c = LeavesRoom pol c.action sig.current_quota

increase-Moves :
    (up old high : ℕ)
    → 1 ≤ up
    → up ≤ 2 ^ 62
    → old < high
    → high ≤ 1024
    → let q : ℕ = if leb (2 ^ 63) (old + up) then 0 else old + up in
      let n : ℕ = if ltb high q then high else q in
      let low : ℕ = if ltb n 1 then 1 else n in
      let new : ℕ = if ltb 1024 low then 1024 else low in
      (old < new) × (new ≤ high) × (new ≤ old + up)
increase-Moves up old high h₁ h₂ h₃ h₄ = ground arith

decrease-Moves :
    (down old least : ℕ)
    → 1 ≤ down
    → least < old
    → 1 ≤ least
    → old ≤ 1024
    → let q : ℕ = old - down in
      let n : ℕ = if ltb q least then least else q in
      let low : ℕ = if ltb n 1 then 1 else n in
      let new : ℕ = if ltb 1024 low then 1024 else low in
      (least ≤ new) × (new < old) × (old ≤ new + down)
decrease-Moves down old least h₁ h₂ h₃ h₄ = ground arith

hold-Moves :
    (old : ℕ)
    → 1 ≤ old
    → old ≤ 1024
    → let low : ℕ = if ltb old 1 then 1 else old in (if ltb 1024 low then 1024 else low) ≡ old
hold-Moves old h₁ h₂ = ground arith

stepped-Moves :
    (up down : ℕ) (pol : ResolvedPolicy) (action : QuotaAdjustmentAction) (old : ℕ)
    → 1 ≤ up
    → up ≤ 2 ^ 62
    → 1 ≤ down
    → 1 ≤ pol.min_quota
    → pol.max_quota ≤ 1024
    → old ≤ 1024
    → LeavesRoom pol action old
    → Moves up down pol action old (clamped_quota (stepped action up down pol old))
unfolding clamped_quota stepped
stepped-Moves up down pol hold old u₁ u₂ d low high bound room = hold-Moves old room bound
stepped-Moves up down pol increase old u₁ u₂ d low high bound room =
    increase-Moves up old pol.max_quota u₁ u₂ room high
stepped-Moves up down pol decrease old u₁ u₂ d low high bound room =
    decrease-Moves down old pol.min_quota d room low bound

module _ {ℓ} {W : Type ℓ} where
  -- A decision keeps the quota, or moves it by at most a step in the direction that it names and
  -- within the bounds of its lane.
  abbrev pub Adjusts : AdaptiveQuotaConfig W → Lane → QuotaAdjustmentDecision W → Type 0
  Adjusts cfg (pol, sig) d =
      (d.old_quota ≡ sig.current_quota)
      × Moves cfg.increase_step cfg.decrease_step pol d.action sig.current_quota d.new_quota

  pub apply_candidate-Adjusts :
      (cfg : AdaptiveQuotaConfig W) (snap : AdaptiveSignalSnapshot W) (l : Lane) (c : LaneCandidate)
      → HasSteps cfg
      → IsValidLane l
      → Fits l c
      → Adjusts cfg l (apply_candidate cfg snap l c)
  unfolding apply_candidate lane_decision
  apply_candidate-Adjusts cfg snap (pol, sig) c (u₁, u₂, d) (low, _, high, _, bound) room = (
    refl,
    stepped-Moves cfg.increase_step cfg.decrease_step pol c.action sig.current_quota u₁ u₂ d low
        high bound room,
  )

  pub first_decision-Adjusts :
      (cfg : AdaptiveQuotaConfig W) (snap : AdaptiveSignalSnapshot W) (l : Lane) (o : LaneOutcome)
      → Adjusts cfg l (first_decision snap l o)
  unfolding first_decision lane_decision
  first_decision-Adjusts cfg snap (pol, sig) o = (refl, refl)

-- An outcome that makes a lane a candidate leaves room for it.
abbrev pub Sound : Lane → LaneOutcome → Type 0
Sound (pol, sig) (held why) = Unit
Sound (pol, sig) (to_decrease why priority) = pol.min_quota < sig.current_quota
Sound (pol, sig) (to_increase why priority) = sig.current_quota < pol.max_quota

if-Sound :
    (b : Bool) (l : Lane) (x y : LaneOutcome) → Sound l x → Sound l y → Sound l (if b then x else y)
if-Sound true l x y p q = p
if-Sound false l x y p q = q

-- The same where the second way is taken only if the test fails.
else-Sound :
    (b : Bool) (l : Lane) (x y : LaneOutcome)
    → Sound l x
    → (b ≡ false → Sound l y)
    → Sound l (if b then x else y)
else-Sound true l x y p q = p
else-Sound false l x y p q = q refl

by_reason-Sound :
    (o : Option QuotaAdjustmentReason) (l : Lane) (made : QuotaAdjustmentReason → LaneOutcome)
    (rest : LaneOutcome)
    → ((r : QuotaAdjustmentReason) → Sound l (made r))
    → Sound l rest
    → Sound l (elim o [ some reason ↦ made reason | none ↦ rest ])
by_reason-Sound none l made rest p q = q
by_reason-Sound (some r) l made rest p q = p r

above : (a b : ℕ) → leb a b ≡ false → b < a
above a b h = ground arith

module _ {ℓ} {W : Type ℓ} ⦃f : Float W⦄ where
  open f use {lt, le}

  try_increase-Sound :
      (cfg : AdaptiveQuotaConfig W) (p : W) (l : Lane) → Sound l (try_increase cfg p l)
  unfolding try_increase
  try_increase-Sound cfg p (pol, sig) =
      let l : Lane = (pol, sig) in
      let rest : LaneOutcome = held (rest_reason cfg p pol) in
      if-Sound (cfg.enable_increase && pol.allow_increase && le p cfg.pressure_low) l _ rest
        (if-Sound (ltb 0 sig.queue_full_count) l _ _ tt (
          else-Sound (leb pol.max_quota sig.current_quota) l _ _ tt (λ below.
            if-Sound (int_ltb cfg.run_time_high sig.run_max && int_ltb (pos 0) cfg.run_time_high) l
              _ _ tt
              (if-Sound (not (queue_wait_high sig pol cfg)) l _ _ tt (
                by_reason-Sound (increase_reason_for_class pol.class) l
                  (λ why. to_increase why (increase_priority pol.class)) rest
                  (λ why. above pol.max_quota sig.current_quota below) tt)))))
        tt

  try_decrease-Sound :
      (cfg : AdaptiveQuotaConfig W) (p : W) (l : Lane) → Sound l (try_decrease cfg p l)
  unfolding try_decrease
  try_decrease-Sound cfg p (pol, sig) =
      let l : Lane = (pol, sig) in
      let rest : LaneOutcome = try_increase cfg p l in
      if-Sound
        (cfg.enable_decrease
          && pol.allow_decrease
          && (le cfg.pressure_high p || localized_overload_decrease_eligible pol.class sig))
        l _ rest
        (else-Sound (leb sig.current_quota pol.min_quota) l _ _ tt (λ below.
          by_reason-Sound (decrease_reason_for_class pol.class sig p cfg) l
            (λ why. to_decrease why (decrease_priority pol.class)) rest
            (λ why. above sig.current_quota pol.min_quota below) (try_increase-Sound cfg p l)))
        (try_increase-Sound cfg p l)

  pub lane_outcome-Sound :
      (cfg : AdaptiveQuotaConfig W) (state : AdaptiveControllerState W) (now : ℕ) (p : W) (l : Lane)
      → Sound l (lane_outcome cfg state now p l)
  unfolding lane_outcome
  lane_outcome-Sound cfg state now p (pol, sig) =
      let l : Lane = (pol, sig) in
      if-Sound (not pol.enabled) l _ _ tt (
        if-Sound (is_warming_up cfg state now) l _ _ tt (
          if-Sound (is_cooling_down cfg state pol.lane_id now) l _ _ tt (
            if-Sound
              (ltb sig.queue_wait_samples min_queue_wait_samples
                && lt p cfg.pressure_high
                && not (localized_overload_decrease_eligible pol.class sig))
              l _ _ tt (try_decrease-Sound cfg p l))))
