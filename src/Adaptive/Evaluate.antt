-- ===== src/Adaptive/Evaluate.antt =====
-- What EvaluateAdaptiveQuota of internal/core/adaptive_quota_eval.go decides on one lane.
use go_keylane.Base.{
  ℕ, Bool, true, false, not, ◌&&◌, ◌||◌, Option, none, some, leb, ltb, if◌then◌else◌,
}
use go_keylane.Base.Ints.{ℤ, pos, int_ltb, int_leb, minus}
use go_keylane.Base.Dict.{lookup}
use go_keylane.Base.Floats.{Float}
use go_keylane.Retry.Suppression.{LaneClass, critical, normal, background, best_effort}
use go_keylane.Adaptive.Defs.{
  QuotaAdjustmentReason, critical_queue_wait_high, normal_queue_wait_high, global_pressure_high,
  background_pressure_high, best_effort_pressure_high, runtime_too_high, cooldown_active,
  at_min_bound, at_max_bound, insufficient_samples, increase_disabled, decrease_disabled,
  warmup_active, neutral_pressure, background_queue_wait_high, queue_full, no_reason,
  AdaptiveQuotaConfig, ResolvedPolicy, LaneAdaptiveSignal, AdaptiveControllerState, Lane,
}

abbrev pub min_queue_wait_samples : ℕ
min_queue_wait_samples = 1

-- Where the loop leaves a lane: held for a reason, or put on one of the two lists of candidates.
pub data LaneOutcome : Type 0 where
  held : QuotaAdjustmentReason → LaneOutcome
  to_decrease : QuotaAdjustmentReason → ℕ → LaneOutcome
  to_increase : QuotaAdjustmentReason → ℕ → LaneOutcome

unfoldable pub lane_overload_elevated : LaneAdaptiveSignal → Bool
lane_overload_elevated sig =
    ltb 0 sig.overload_shed_count
    || ltb 0 sig.overload_reject_count
    || ltb 0 sig.overload_degrade_count

abbrev pub is_sheddable : LaneClass → Bool
is_sheddable background = true
is_sheddable best_effort = true
is_sheddable _ = false

unfoldable pub localized_overload_decrease_eligible : LaneClass → LaneAdaptiveSignal → Bool
unfolding lane_overload_elevated
localized_overload_decrease_eligible class sig =
    if not (lane_overload_elevated sig) then false else is_sheddable class

unfoldable pub increase_reason_for_class : LaneClass → Option QuotaAdjustmentReason
increase_reason_for_class critical = some critical_queue_wait_high
increase_reason_for_class normal = some normal_queue_wait_high
increase_reason_for_class background = some background_queue_wait_high
increase_reason_for_class _ = none

unfoldable pub increase_priority : LaneClass → ℕ
increase_priority critical = 0
increase_priority normal = 1
increase_priority background = 2
increase_priority _ = 99

unfoldable pub decrease_priority : LaneClass → ℕ
decrease_priority best_effort = 0
decrease_priority background = 1
decrease_priority normal = 2
decrease_priority _ = 99

-- `now.Sub(t) < d`
abbrev within : ℕ → ℕ → ℤ → Bool
within now t d = int_ltb (minus now t) d

module _ {ℓ} {W : Type ℓ} ⦃f : Float W⦄ where
  open f use {lt, le}

  unfoldable pub decrease_reason_for_class :
      LaneClass → LaneAdaptiveSignal → W → AdaptiveQuotaConfig W → Option QuotaAdjustmentReason
  unfolding lane_overload_elevated
  decrease_reason_for_class best_effort sig pressure cfg =
      if le cfg.pressure_high pressure || lane_overload_elevated sig
      then some best_effort_pressure_high
      else none
  decrease_reason_for_class background sig pressure cfg =
      if le cfg.pressure_high pressure || lane_overload_elevated sig
      then some background_pressure_high
      else none
  decrease_reason_for_class normal sig pressure cfg =
      if le cfg.pressure_high pressure
      then some global_pressure_high
      else if ltb 0 sig.overload_shed_count || ltb 0 sig.overload_reject_count
      then some global_pressure_high
      else none
  decrease_reason_for_class _ sig pressure cfg = none

  unfoldable pub queue_wait_high :
      LaneAdaptiveSignal → ResolvedPolicy → AdaptiveQuotaConfig W → Bool
  queue_wait_high sig pol cfg =
      let longest : ℤ = sig.queue_wait_max in
      let wait : ℤ =
        if int_leb longest (pos 0) && int_leb (pos 0) longest
        then sig.queue_wait_avg
        else longest in
      if int_ltb (pos 0) pol.target_queue_wait && int_leb pol.target_queue_wait wait
      then true
      else int_ltb (pos 0) cfg.queue_wait_high && int_leb cfg.queue_wait_high wait

  unfoldable pub is_warming_up : AdaptiveQuotaConfig W → AdaptiveControllerState W → ℕ → Bool
  is_warming_up cfg state now =
      int_ltb (pos 0) cfg.warmup_duration && within now state.started_at cfg.warmup_duration

  unfoldable pub is_cooling_down : AdaptiveQuotaConfig W → AdaptiveControllerState W → ℕ → ℕ → Bool
  unfolding lookup
  is_cooling_down cfg state lane_id now = elim (lookup lane_id state.last_adjusted) [
    | none ↦ false
    | some last ↦ within now last cfg.cooldown_duration
  ]

  -- The reason of a lane that is no candidate, once every `continue` is passed.
  unfoldable pub rest_reason : AdaptiveQuotaConfig W → W → ResolvedPolicy → QuotaAdjustmentReason
  rest_reason cfg pressure pol =
      if lt cfg.pressure_low pressure && lt pressure cfg.pressure_high
      then neutral_pressure
      else if le cfg.pressure_high pressure
      then (if not pol.allow_decrease then decrease_disabled else global_pressure_high)
      else if le pressure cfg.pressure_low && not pol.allow_increase
      then increase_disabled
      else no_reason

  unfoldable pub try_increase : AdaptiveQuotaConfig W → W → Lane → LaneOutcome
  unfolding queue_wait_high increase_reason_for_class increase_priority rest_reason
  try_increase cfg pressure (pol, sig) =
      let rest : LaneOutcome = held (rest_reason cfg pressure pol) in
      if cfg.enable_increase && pol.allow_increase && le pressure cfg.pressure_low
      then (if ltb 0 sig.queue_full_count
          then held queue_full
          else if leb pol.max_quota sig.current_quota
          then held at_max_bound
          else if int_ltb cfg.run_time_high sig.run_max && int_ltb (pos 0) cfg.run_time_high
          then held runtime_too_high
          else if not (queue_wait_high sig pol cfg)
          then held neutral_pressure
          else elim (increase_reason_for_class pol.class) [
            | some reason ↦ to_increase reason (increase_priority pol.class)
            | none ↦ rest
          ])
      else rest

  unfoldable pub try_decrease : AdaptiveQuotaConfig W → W → Lane → LaneOutcome
  unfolding try_increase decrease_reason_for_class decrease_priority
      localized_overload_decrease_eligible
  try_decrease cfg pressure (pol, sig) =
      let rest : LaneOutcome = try_increase cfg pressure (pol, sig) in
      if cfg.enable_decrease
        && pol.allow_decrease
        && (le cfg.pressure_high pressure || localized_overload_decrease_eligible pol.class sig)
      then (if leb sig.current_quota pol.min_quota
          then held at_min_bound
          else elim (decrease_reason_for_class pol.class sig pressure cfg) [
            | some reason ↦ to_decrease reason (decrease_priority pol.class)
            | none ↦ rest
          ])
      else rest

  -- The body of the loop over `snap.Lanes`.
  unfoldable pub lane_outcome :
      AdaptiveQuotaConfig W → AdaptiveControllerState W → ℕ → W → Lane → LaneOutcome
  unfolding try_decrease is_warming_up is_cooling_down localized_overload_decrease_eligible
  lane_outcome cfg state now pressure (pol, sig) =
      if not pol.enabled
      then held increase_disabled
      else if is_warming_up cfg state now
      then held warmup_active
      else if is_cooling_down cfg state pol.lane_id now
      then held cooldown_active
      else if ltb sig.queue_wait_samples min_queue_wait_samples
          && lt pressure cfg.pressure_high
          && not (localized_overload_decrease_eligible pol.class sig)
      then held insufficient_samples
      else try_decrease cfg pressure (pol, sig)
