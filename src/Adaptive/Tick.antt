-- ===== src/Adaptive/Tick.antt =====
-- The method tick of internal/core/adaptive_quota_controller.go, and the single-lane update of
-- quota_policy.go that it calls.
use go_keylane.Base.{
  ℕ, ◌+◌, ◌%◌, ◌^◌, Bool, true, false, not, ◌&&◌, ◌||◌, String, none, some, List, [], ◌∷◌, Result,
  ok, err, ◌==◌, if◌then◌else◌,
}
use text.Mathlib.Text.{◌==◌ as str_eq}
use go_keylane.Base.Floats.{Float}
use go_keylane.Errors.{Error, invalid_lane}
use go_keylane.Counters.{u64}
use go_keylane.Registry.{LaneRegistry, lookup_lane, name_of}
use go_keylane.Quota.{QuotaPolicySnapshot}
use go_keylane.Scheduler.State.{Scheduler}
use go_keylane.Scheduler.Policy.{update_quota_policy_if_version}
use go_keylane.Adaptive.Defs.{
  QuotaAdjustmentAction, hold, update_failed, AdaptiveQuotaConfig, AdaptiveSignalSnapshot,
  QuotaAdjustmentDecision, AdaptiveControllerState, record_applied, append_decision,
}
use go_keylane.Adaptive.Apply.{LaneCandidate, evaluate_adaptive_quota}

-- CurrentQuotaPolicyView: the map of the lanes' quotas, from the lane `i` on.
unfoldable pub quotas_view : LaneRegistry → ℕ → List ℕ → List (String × ℕ)
quotas_view reg i [] = []
quotas_view reg i (q ∷ qs) = (name_of reg i, q) ∷ quotas_view reg (i + 1) qs

-- `laneQuotas[lane] = quota`
unfoldable pub with_quota : String → ℕ → List (String × ℕ) → List (String × ℕ)
with_quota lane quota [] = (lane, quota) ∷ []
with_quota lane quota ((l, q) ∷ rest) =
    let others = with_quota lane quota rest in
    if str_eq l lane then (lane, quota) ∷ rest else (l, q) ∷ others

-- updateLaneQuotaIfVersionInternal with no manual event.
unfoldable pub update_lane_quota_if_version :
    Scheduler → String → ℕ → ℕ → Scheduler × Result Error ℕ
unfolding quotas_view with_quota update_quota_policy_if_version
update_lane_quota_if_version s lane quota expected =
    let current : QuotaPolicySnapshot = s.quota_policy in
    if str_eq lane ""
    then (s, err invalid_lane)
    else update_quota_policy_if_version s
        (record {
          default_quota = current.default_quota;
          lane_quotas = with_quota lane quota (quotas_view s.lane_reg 0 current.lane_quotas);
        })
        expected

-- The scheduler and the controller's own state. `emitted` is what `onDecision` was called with.
pub record Ticking {ℓ} (W : Type ℓ) : Type ℓ where
  pub sched : Scheduler
  pub state : AdaptiveControllerState W
  pub emitted : List (QuotaAdjustmentDecision W)

abbrev pub is_hold : QuotaAdjustmentAction → Bool
is_hold hold = true
is_hold _ = false

module _ {ℓ} {W : Type ℓ} where
  -- `state.appendDecision(d)` and the hook.
  unfoldable pub told : Ticking W → QuotaAdjustmentDecision W → Ticking W
  unfolding append_decision
  told t d = record t { state = append_decision t.state d; emitted = d ∷ t.emitted }

  unfoldable pub failed_decision :
      AdaptiveSignalSnapshot W → QuotaAdjustmentDecision W → QuotaAdjustmentDecision W
  failed_decision snap d = record d {
    action = hold;
    reason = update_failed;
    new_quota = d.old_quota;
    policy_version = snap.policy_version;
    quota_version = snap.quota_version;
  }

  -- The lane's time of adjustment, where the registry knows the lane.
  unfoldable pub adjusted_at :
      LaneRegistry → ℕ → String → AdaptiveControllerState W → AdaptiveControllerState W
  unfolding record_applied
  adjusted_at reg now lane state = elim (lookup_lane reg lane) [
    | none ↦ state
    | some id ↦ record_applied state id now
  ]

  -- After the call of `apply`.
  unfoldable pub after_apply :
      AdaptiveSignalSnapshot W
      → ℕ
      → Ticking W
      → QuotaAdjustmentDecision W
      → Scheduler × Result Error ℕ
      → Ticking W
  unfolding told failed_decision adjusted_at
  after_apply snap now t d (s, err e) = told (record t { sched = s }) (failed_decision snap d)
  after_apply snap now t d (s, ok version) =
      told (record t { sched = s; state = adjusted_at s.lane_reg now d.lane t.state })
        (record d { policy_version = snap.policy_version; quota_version = version })

  -- The loop over the decisions. `done` says whether the context has ended before each decision; the
  -- controller is stopped then. The counters of the lanes are not part of the state here.
  unfoldable pub apply_decisions :
      AdaptiveQuotaConfig W
      → AdaptiveSignalSnapshot W
      → ℕ
      → (ℕ → Bool)
      → ℕ
      → List (QuotaAdjustmentDecision W)
      → Ticking W
      → Ticking W
  unfolding told after_apply update_lane_quota_if_version
  apply_decisions cfg snap now done i [] t = t
  apply_decisions cfg snap now done i (d ∷ ds) t =
      let holds : Bool = is_hold d.action || d.new_quota == d.old_quota in
      let next : Ticking W =
        if holds
        then (if cfg.emit_hold_decisions then told t d else t)
        else after_apply snap now t d (
            update_lane_quota_if_version t.sched d.lane (d.new_quota % 2 ^ 32)
              snap.quota_version) in
      let rest = apply_decisions cfg snap now done (i + 1) ds next in
      if not holds && done i then t else rest

  -- `state.TickCount++`
  abbrev pub ticked : Ticking W → Ticking W
  ticked t = record t { state = record (t.state) { tick_count = u64 (t.state.tick_count + 1) } }

module _ {ℓ} {W : Type ℓ} ⦃f : Float W⦄ where
  -- `snap` is what buildAdaptiveSignalSnapshot has read.
  unfoldable pub tick :
      (List LaneCandidate → List LaneCandidate)
      → AdaptiveQuotaConfig W
      → AdaptiveSignalSnapshot W
      → ℕ
      → (ℕ → Bool)
      → Ticking W
      → Ticking W
  unfolding evaluate_adaptive_quota apply_decisions
  tick sort cfg snap now done t =
      apply_decisions cfg snap now done 0 (evaluate_adaptive_quota sort cfg snap t.state now)
        (ticked t)
