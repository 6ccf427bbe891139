-- ===== src/HotKey/Planning.antt =====
-- planPerKeyAdmission of internal/core/per_key_policy.go foresees what evaluatePerKeyAdmission decides.
use go_keylane.Base.{
  ℕ, suc, ◌+◌, ◌≡◌, refl, sym, ap, ◌∙◌, subst, inl, inr, Bool, true, false, not, ◌||◌, Option, none,
  some, List, [], ◌∷◌, get_or, ltb, ◌==◌, Option-cases, Bool-cases, if◌then◌else◌,
}
use go_keylane.Base.Dict.{lookup}
use go_keylane.Base.Floats.{Float}
use go_keylane.Counters.{u64}
use go_keylane.HotKey.Defs.{
  MitigationAction, allow, throttle, reject, shed, AdmissionReason, HotKeyTracker, HotKeyEntry,
  zero_entry, entry_at, enabled, hot_key_entry_stale, expire_stale_entries, HotKeyConfig,
  new_hot_key_tracker, off_tracker,
}
use go_keylane.HotKey.Observe.{observed_slot, entry_for_observation, tracker_totals}
use go_keylane.HotKey.Keeping.{IsTable}
use go_keylane.HotKey.Expiring.{is_stale}
use go_keylane.HotKey.Fresh.{expire_stale-SeesSame, expire_stale-fresh}
use go_keylane.HotKey.Bounded.{Observation, observed_all, reached}
use go_keylane.HotKey.PerKey.{
  HotKeyStatus, HotKeyRatios, PerKeyAdmissionConfig, ShardLoad, Verdict, recovered, passed,
  mitigated,
}
use go_keylane.HotKey.Admission.{
  PerKeyAdmissionDecision, finished_decision, planned, finished, judged, slot_of, entry_totals,
  plan_per_key_admission, evaluate_per_key_admission,
}

or_false {ℓ} :
    {A : Type ℓ} (b c : Bool) (x y : A)
    → c ≡ false
    → (if b || c then x else y) ≡ (if b then x else y)
or_false true c x y e = refl
or_false false c x y e = rw e refl

-- With no stale entry both loops count the same.
totals-fresh :
    (es : List HotKeyEntry) (window now : ℕ)
    → ((j : ℕ) → hot_key_entry_stale (get_or es j (zero_entry 0)) window now ≡ false)
    → tracker_totals es window now ≡ entry_totals es
unfolding tracker_totals entry_totals
totals-fresh [] window now fresh = refl
totals-fresh (e ∷ es) window now fresh =
    let rest = totals-fresh es window now (λ j. fresh (suc j)) in
    rw rest (
      or_false (e.key_hash == 0) (hot_key_entry_stale e window now) (entry_totals es)
        (u64 (e.submitted_approx + (entry_totals es).0), e.queued_approx + (entry_totals es).1)
        (fresh 0))

abbrev entry_in : HotKeyTracker → Option ℕ → Option HotKeyEntry
entry_in t none = none
entry_in t (some i) = some (entry_at t i)

chosen :
    (t : HotKeyTracker) (i : ℕ) (b c : Bool)
    → c ≡ false
    → (if not b || c then none else some (entry_at t i)) ≡ entry_in t (if b then some i else none)
chosen t i true c e = rw e refl
chosen t i false c e = refl

abbrev held_by : HotKeyTracker → ℕ → Option ℕ → Option ℕ
held_by t key_hash none = none
held_by t key_hash (some i) = if (entry_at t i).key_hash == key_hash then some i else none

fresh_slot :
    (t : HotKeyTracker) (key_hash now : ℕ) (o : Option ℕ)
    → ((j : ℕ) → is_stale t j now ≡ false)
    → observed_slot t key_hash now o ≡ entry_in t (held_by t key_hash o)
fresh_slot t key_hash now none fresh = refl
fresh_slot t key_hash now (some i) fresh =
    chosen t i ((entry_at t i).key_hash == key_hash) (is_stale t i now) (fresh i)

-- A decision but for the rest of the cooldown, which an evaluation starts anew.
abbrev pub Answer {ℓ} : Type ℓ → Type ℓ
Answer W = MitigationAction × AdmissionReason × HotKeyStatus × W × ℕ

module _ {ℓ} {W : Type ℓ} ⦃f : Float W⦄ where
  abbrev pub answer : PerKeyAdmissionDecision W → Answer W
  answer d = (d.action, d.reason, d.status, d.pressure_ratio, d.retry_after)

  answer_if :
      (b : Bool) (d : PerKeyAdmissionDecision W) (n : ℕ)
      → answer (if b then record d { cooldown_remaining = n } else d) ≡ answer d
  answer_if true d n = refl
  answer_if false d n = refl

  finished-planned :
      (cfg : PerKeyAdmissionConfig W) (e : HotKeyEntry) (s : HotKeyStatus × W) (now : ℕ)
      (v : Verdict)
      → answer (finished cfg e s now v) ≡ answer (planned cfg e s now v)
  unfolding finished planned finished_decision
  finished-planned cfg e s now recovered = refl
  finished-planned cfg e s now passed = refl
  finished-planned cfg e s now (mitigated allow why) = refl
  finished-planned cfg e s now (mitigated MitigationAction.unset why) =
      answer_if (ltb 0 cfg.cooldown) _ cfg.cooldown
  finished-planned cfg e s now (mitigated throttle why) =
      answer_if (ltb 0 cfg.cooldown) _ cfg.cooldown
  finished-planned cfg e s now (mitigated reject why) =
      answer_if (ltb 0 cfg.cooldown) _ cfg.cooldown
  finished-planned cfg e s now (mitigated shed why) = answer_if (ltb 0 cfg.cooldown) _ cfg.cooldown

  module _ (n : ℕ) (limits : HotKeyRatios W) (cfg : PerKeyAdmissionConfig W) (load : ShardLoad W)
      (t : HotKeyTracker) (key_hash now : ℕ) (h : IsTable n t) where
    abbrev live : HotKeyTracker
    live = expire_stale_entries t now

    -- What is observed before the stale entries are cleared, and what is found after.
    observed-slot_of : entry_for_observation t key_hash now ≡ entry_in live (slot_of live key_hash)
    unfolding entry_for_observation slot_of
    observed-slot_of =
        let sees = expire_stale-SeesSame n t now h in
        sym (sees.same_entry key_hash)
        ∙ fresh_slot live key_hash now (lookup key_hash live.index) (expire_stale-fresh t now)

    observed_totals :
        tracker_totals t.entries t.cfg.detection_window now ≡ entry_totals live.entries
    observed_totals =
        let sees = expire_stale-SeesSame n t now h in
        sym sees.same_totals
        ∙ totals-fresh live.entries t.cfg.detection_window now (λ j.
          (let window =
              ap (λ c. hot_key_entry_stale (entry_at live j) c.detection_window now)
                sees.same_cfg in
            sym window ∙ expire_stale-fresh t now j))

    plan-evaluate :
        answer (plan_per_key_admission limits cfg load t key_hash now)
        ≡ answer (evaluate_per_key_admission limits cfg load t key_hash now).1
    unfolding plan_per_key_admission evaluate_per_key_admission
    plan-evaluate = elim (Bool-cases (not (enabled t) || not cfg.enabled)) [
      | inl off ↦ rw off refl
      | inr on ↦ elim (Option-cases (slot_of live key_hash)) [
        | inl e ↦ (let seen = observed-slot_of ∙ ap (entry_in live) e in rw (on, e, seen) refl)
        | inr (i, e) ↦
            (let seen = observed-slot_of ∙ ap (entry_in live) e in
              let totals = observed_totals in
              let j = judged limits cfg load now (entry_at live i) (entry_totals live.entries) in
              rw (on, e, seen, totals) (sym (finished-planned cfg (entry_at live i) j.0 now j.1)))
      ]
    ]

  off_alike :
      (limits : HotKeyRatios W) (cfg : PerKeyAdmissionConfig W) (load : ShardLoad W)
      (key_hash now : ℕ)
      → answer (plan_per_key_admission limits cfg load off_tracker key_hash now)
        ≡ answer (evaluate_per_key_admission limits cfg load off_tracker key_hash now).1
  unfolding plan_per_key_admission evaluate_per_key_admission enabled
  off_alike limits cfg load key_hash now = refl

  -- Whatever a tracker has observed and evaluated, the plan for a key has the action, the reason, the status, the
  -- pressure and the time to retry of the evaluation at the same time.
  pub plan_per_key_admission-evaluate :
      (hot_key : HotKeyConfig) (os : List (Observation W)) (limits : HotKeyRatios W)
      (cfg : PerKeyAdmissionConfig W) (load : ShardLoad W) (key_hash now : ℕ)
      → let t = observed_all (new_hot_key_tracker hot_key) os in
        answer (plan_per_key_admission limits cfg load t key_hash now)
        ≡ answer (evaluate_per_key_admission limits cfg load t key_hash now).1
  plan_per_key_admission-evaluate hot_key os limits cfg load key_hash now =
      let t = observed_all (new_hot_key_tracker hot_key) os in
      elim (reached hot_key os) [
        | inl off ↦
            subst
              (λ u.
                answer (plan_per_key_admission limits cfg load u key_hash now)
                ≡ answer (evaluate_per_key_admission limits cfg load u key_hash now).1)
              (sym off) (off_alike limits cfg load key_hash now)
        | inr h ↦ plan-evaluate hot_key.max_tracked_keys_per_shard limits cfg load t key_hash now h
      ]
