-- ===== src/Adaptive/Once.antt =====
-- How often one tick of internal/core/adaptive_quota_controller.go publishes a quota policy.
use go_keylane.Base.{
  ◌≡◌, refl, sym, subst, ℕ, ◌+◌, ◌%◌, ◌^◌, ◌<◌, ◌⊎◌, inl, inr, Bool, true, false, not, ◌&&◌, ◌||◌,
  String, List, [], ◌∷◌, Result, ok, err, ◌==◌, ==→eq, Bool-cases, Result-cases, arith,
  if◌then◌else◌,
}
use text.Mathlib.Text.{◌==◌ as str_eq}
use go_keylane.Base.Floats.{Float}
use go_keylane.Errors.{Error}
use go_keylane.Counters.{u64}
use go_keylane.Quota.{QuotaPolicyInput, build_quota_policy_snapshot}
use go_keylane.Scheduler.State.{Scheduler}
use go_keylane.Scheduler.Policy.{is_stopping, publish_quota_policy, update_quota_policy_if_version}
use go_keylane.Adaptive.Defs.{AdaptiveQuotaConfig, AdaptiveSignalSnapshot, QuotaAdjustmentDecision}
use go_keylane.Adaptive.Apply.{LaneCandidate, evaluate_adaptive_quota}
use go_keylane.Adaptive.Tick.{
  Ticking, told, after_apply, is_hold, update_lane_quota_if_version, apply_decisions, ticked, tick,
}

-- What an update that expects a version does to the scheduler: nothing, or it publishes the next one.
abbrev Moved : Scheduler → ℕ → Scheduler → Type 0
Moved s expected t =
    (t ≡ s)
    ⊎ ((s.quota_policy.version ≡ expected)
        × (t.quota_policy.version ≡ u64 (s.quota_version + 1))
        × (t.quota_version ≡ u64 (s.quota_version + 1)))

update-Moved :
    (s : Scheduler) (policy : QuotaPolicyInput) (expected : ℕ)
    → Moved s expected (update_quota_policy_if_version s policy expected).0
unfolding update_quota_policy_if_version publish_quota_policy
update-Moved s policy expected =
    elim (Result-cases (build_quota_policy_snapshot s.lane_reg policy)) [
      | inr (e, f) ↦ inl (rw (f, update_quota_policy_if_version) refl)
      | inl (snap, f) ↦ elim (Bool-cases (is_stopping s.state)) [
        | inl g ↦ inl (rw (f, g, update_quota_policy_if_version) refl)
        | inr g ↦ elim (Bool-cases (s.quota_policy.version == expected)) [
          | inl h ↦ inr (
            ==→eq s.quota_policy.version expected h,
            rw (f, g, h, update_quota_policy_if_version) refl,
            rw (f, g, h, update_quota_policy_if_version) refl,
          )
          | inr h ↦ inl (rw (f, g, h, update_quota_policy_if_version) refl)
        ]
      ]
    ]

if-Moved :
    (b : Bool) (s : Scheduler) (expected : ℕ) (e : Error) (r : Scheduler × Result Error ℕ)
    → Moved s expected r.0
    → Moved s expected (if b then (s, err e) else r).0
if-Moved true s expected e r m = inl refl
if-Moved false s expected e r m = m

update_lane-Moved :
    (s : Scheduler) (lane : String) (quota expected : ℕ)
    → Moved s expected (update_lane_quota_if_version s lane quota expected).0
unfolding update_lane_quota_if_version
update_lane-Moved s lane quota expected =
    if-Moved (str_eq lane "") s expected _ _ (update-Moved s _ expected)

-- The counter is at `c`, or one further by an update that expected `c`.
abbrev OneFurther : ℕ → ℕ → Scheduler → Type 0
OneFurther c expected s =
    (s.quota_policy.version ≡ s.quota_version)
    × ((s.quota_version ≡ c) ⊎ ((s.quota_version ≡ c + 1) × (expected ≡ c)))

further :
    (c expected : ℕ) (s t : Scheduler)
    → c + 1 < 2 ^ 64
    → OneFurther c expected s
    → Moved s expected t
    → OneFurther c expected t
further c expected s t room p (inl e) = subst (OneFurther c expected) (sym e) p
further c expected s t room (agree, inl at) (inr (found, version, counter)) =
    let same : t.quota_policy.version ≡ t.quota_version = omega arith in
    (same, inr (omega arith, omega arith))
further c expected s t room (agree, inr (at, e)) (inr (found, version, counter)) =
    absurd (omega arith)

module _ {ℓ} {W : Type ℓ} where
  if_sched :
      (b : Bool) (t u : Ticking W) (P : Scheduler → Type 0)
      → P t.sched
      → P u.sched
      → P (if b then t else u).sched
  if_sched true t u P p q = p
  if_sched false t u P p q = q

  after_apply-sched :
      (snap : AdaptiveSignalSnapshot W) (now : ℕ) (t : Ticking W) (d : QuotaAdjustmentDecision W)
      (r : Scheduler × Result Error ℕ)
      → (after_apply snap now t d r).sched ≡ r.0
  unfolding after_apply told
  after_apply-sched snap now t d (s, err e) = refl
  after_apply-sched snap now t d (s, ok v) = refl

  module _ (c : ℕ) (cfg : AdaptiveQuotaConfig W) (snap : AdaptiveSignalSnapshot W) where
    abbrev Fits : Scheduler → Type 0
    Fits = OneFurther c snap.quota_version

    apply_decisions-Fits :
        (now : ℕ) (done : ℕ → Bool) (i : ℕ) (ds : List (QuotaAdjustmentDecision W)) (t : Ticking W)
        → c + 1 < 2 ^ 64
        → Fits t.sched
        → Fits (apply_decisions cfg snap now done i ds t).sched
    unfolding apply_decisions told
    apply_decisions-Fits now done i [] t room p = p
    apply_decisions-Fits now done i (d ∷ ds) t room p =
        let q : ℕ = d.new_quota % 2 ^ 32 in
        let r = update_lane_quota_if_version t.sched d.lane q snap.quota_version in
        let holds : Bool = is_hold d.action || d.new_quota == d.old_quota in
        let emitted : Ticking W = if cfg.emit_hold_decisions then told t d else t in
        let applied : Ticking W = after_apply snap now t d r in
        let moved : Fits applied.sched = subst Fits (sym (after_apply-sched snap now t d r)) (
          further c snap.quota_version t.sched r.0 room p
            (update_lane-Moved t.sched d.lane q snap.quota_version)) in
        let next : Fits (if holds then emitted else applied).sched =
          if_sched holds emitted applied Fits
            (if_sched cfg.emit_hold_decisions (told t d) t Fits p p) moved in
        if_sched (not holds && done i) t _ Fits p
          (apply_decisions-Fits now done (i + 1) ds (if holds then emitted else applied) room next)

module _ {ℓ} {W : Type ℓ} ⦃f : Float W⦄ where
  -- However many adjustments the evaluation decides on, and whatever MaxAdjustmentsPerTick is, a tick
  -- publishes at most one quota policy: while the counter of versions is below 2 ^ 64 - 1 and agrees
  -- with the active snapshot, it is the same after the tick, or one higher.
  pub tick_publishes_once :
      (sort : List LaneCandidate → List LaneCandidate) (cfg : AdaptiveQuotaConfig W)
      (snap : AdaptiveSignalSnapshot W) (now : ℕ) (done : ℕ → Bool) (t : Ticking W)
      → t.sched.quota_policy.version ≡ t.sched.quota_version
      → t.sched.quota_version + 1 < 2 ^ 64
      → ((tick sort cfg snap now done t).sched.quota_version ≡ t.sched.quota_version)
        ⊎ ((tick sort cfg snap now done t).sched.quota_version ≡ t.sched.quota_version + 1)
  unfolding tick
  tick_publishes_once sort cfg snap now done t agree room =
      let counter : ℕ = t.sched.quota_version in
      let after =
        apply_decisions-Fits counter cfg snap now done 0
          (evaluate_adaptive_quota sort cfg snap t.state now) (ticked t) room (agree, inl refl) in
      elim after.1 [ inl same ↦ inl same | inr (next, e) ↦ inr next ]
