-- ===== src/HotKey/Admission.antt =====
-- planPerKeyAdmission and evaluatePerKeyAdmission of internal/core/per_key_policy.go.
use go_keylane.Base.{
  ℕ, ◌+◌, ◌-◌, Bool, true, false, not, ◌||◌, Option, none, some, List, [], ◌∷◌, ltb, set, ◌==◌,
  if◌then◌else◌,
}
use go_keylane.Base.Dict.{lookup}
use go_keylane.Base.Floats.{Float}
use go_keylane.Counters.{u64}
use go_keylane.HotKey.Defs.{
  MitigationAction, AdmissionReason, allow, throttle, no_reason, HotKeyTracker, HotKeyEntry,
  enabled, entry_at, expire_stale_entries,
}
use go_keylane.HotKey.Observe.{entry_for_observation, tracker_totals}
use go_keylane.HotKey.PerKey.{
  HotKeyStatus, cold, HotKeyRatios, PerKeyAdmissionConfig, ShardLoad, Verdict, recovered, passed,
  mitigated, entry_hot_key_status, per_key_verdict,
}

-- A decision without the ids of shard, lane and key, which are the caller's.
pub record PerKeyAdmissionDecision {ℓ} (W : Type ℓ) : Type ℓ where
  pub action : MitigationAction
  pub reason : AdmissionReason
  pub status : HotKeyStatus
  pub pressure_ratio : W
  pub retry_after : ℕ
  pub cooldown_remaining : ℕ

abbrev is_throttle : MitigationAction → Bool
is_throttle throttle = true
is_throttle _ = false

-- The totals of the loop over the entries in use.
unfoldable pub entry_totals : List HotKeyEntry → ℕ × ℕ
entry_totals [] = (0, 0)
entry_totals (e ∷ es) =
    let (submitted, queued) = entry_totals es in
    if e.key_hash == 0
    then (submitted, queued)
    else (u64 (e.submitted_approx + submitted), e.queued_approx + queued)

abbrev recovered_entry : HotKeyEntry → HotKeyEntry
recovered_entry e = record e {
  last_action = allow;
  last_reason = no_reason;
  cooldown_until = 0;
  recovery_until = 0;
}

-- The slot that the index has for the key, where it holds the key.
unfoldable pub slot_of : HotKeyTracker → ℕ → Option ℕ
slot_of t key_hash = elim (lookup key_hash t.index) [
  | none ↦ none
  | some i ↦ if (entry_at t i).key_hash == key_hash then some i else none
]

module _ {ℓ} {W : Type ℓ} ⦃f : Float W⦄ where
  open f use {ratio}

  abbrev pub allowed : PerKeyAdmissionDecision W
  allowed = record {
    action = allow;
    reason = no_reason;
    status = cold;
    pressure_ratio = ratio 0 1;
    retry_after = 0;
    cooldown_remaining = 0;
  }

  -- `dec` with its action and reason. A throttled key may be tried again after the cooldown.
  unfoldable pub planned_per_key_decision :
      PerKeyAdmissionConfig W
      → HotKeyEntry
      → HotKeyStatus × W
      → ℕ
      → MitigationAction
      → AdmissionReason
      → PerKeyAdmissionDecision W
  planned_per_key_decision cfg e (status, pressure_ratio) now action reason = record {
    action = action;
    reason = reason;
    status = status;
    pressure_ratio = pressure_ratio;
    retry_after = if is_throttle action then cfg.cooldown else 0;
    cooldown_remaining = e.cooldown_until - now;
  }

  -- The decision of finishPerKeyDecision, which starts the cooldown anew.
  unfoldable pub finished_decision :
      PerKeyAdmissionConfig W
      → HotKeyEntry
      → HotKeyStatus × W
      → ℕ
      → MitigationAction
      → AdmissionReason
      → PerKeyAdmissionDecision W
  unfolding planned_per_key_decision
  finished_decision cfg e s now action reason =
      let dec : PerKeyAdmissionDecision W = planned_per_key_decision cfg e s now action reason in
      elim action [
        | allow ↦ dec
        | _ ↦ if ltb 0 cfg.cooldown then record dec { cooldown_remaining = cfg.cooldown } else dec
      ]

  -- The entry after finishPerKeyDecision.
  unfoldable pub finished_entry :
      PerKeyAdmissionConfig W → HotKeyEntry → ℕ → MitigationAction → AdmissionReason → HotKeyEntry
  finished_entry cfg e now action reason =
      let seen : HotKeyEntry = record e {
        last_action = action;
        last_reason = reason;
        last_decision = now;
        last_seen = now;
      } in
      elim action [
        | allow ↦ seen
        | _ ↦ record seen {
          cooldown_until = if ltb 0 cfg.cooldown then now + cfg.cooldown else e.cooldown_until;
          recovery_until =
              if ltb 0 cfg.recovery_window then now + cfg.recovery_window else e.recovery_until;
        }
      ]

  unfoldable pub planned :
      PerKeyAdmissionConfig W
      → HotKeyEntry
      → HotKeyStatus × W
      → ℕ
      → Verdict
      → PerKeyAdmissionDecision W
  unfolding planned_per_key_decision
  planned cfg e s now recovered = allowed
  planned cfg e s now passed = allowed
  planned cfg e s now (mitigated action why) = planned_per_key_decision cfg e s now action why

  unfoldable pub finished :
      PerKeyAdmissionConfig W
      → HotKeyEntry
      → HotKeyStatus × W
      → ℕ
      → Verdict
      → PerKeyAdmissionDecision W
  unfolding finished_decision
  finished cfg e s now recovered = allowed
  finished cfg e s now passed = allowed
  finished cfg e s now (mitigated action why) = finished_decision cfg e s now action why

  unfoldable pub entry_after : PerKeyAdmissionConfig W → HotKeyEntry → ℕ → Verdict → HotKeyEntry
  unfolding finished_entry
  entry_after cfg e now recovered = recovered_entry e
  entry_after cfg e now passed = e
  entry_after cfg e now (mitigated action why) = finished_entry cfg e now action why

  -- The status of an entry and the verdict on it.
  unfoldable pub judged :
      HotKeyRatios W
      → PerKeyAdmissionConfig W
      → ShardLoad W
      → ℕ
      → HotKeyEntry
      → ℕ × ℕ
      → (HotKeyStatus × W) × Verdict
  unfolding entry_hot_key_status per_key_verdict
  judged limits cfg load now e totals =
      let s = entry_hot_key_status e limits load totals in
      (s, per_key_verdict cfg e s.0 s.1 load.pressure now)

  -- planPerKeyAdmission: evaluatePerKeyAdmissionInner without mutations.
  unfoldable pub plan_per_key_admission :
      HotKeyRatios W
      → PerKeyAdmissionConfig W
      → ShardLoad W
      → HotKeyTracker
      → ℕ
      → ℕ
      → PerKeyAdmissionDecision W
  unfolding judged planned entry_for_observation tracker_totals
  plan_per_key_admission limits cfg load t key_hash now =
      if not (enabled t) || not cfg.enabled
      then allowed
      else elim (entry_for_observation t key_hash now) [
        | none ↦ allowed
        | some e ↦
            (let j =
                judged limits cfg load now e
                  (tracker_totals t.entries t.cfg.detection_window now) in
              planned cfg e j.0 now j.1)
      ]

  -- evaluatePerKeyAdmission: the same with mutations.
  unfoldable pub evaluate_per_key_admission :
      HotKeyRatios W
      → PerKeyAdmissionConfig W
      → ShardLoad W
      → HotKeyTracker
      → ℕ
      → ℕ
      → HotKeyTracker × PerKeyAdmissionDecision W
  unfolding judged finished entry_after slot_of entry_totals expire_stale_entries
  evaluate_per_key_admission limits cfg load t key_hash now =
      let live : HotKeyTracker = expire_stale_entries t now in
      if not (enabled t) || not cfg.enabled then (t, allowed) else elim (slot_of live key_hash) [
        | none ↦ (live, allowed)
        | some i ↦
            (let e : HotKeyEntry = entry_at live i in
              let j = judged limits cfg load now e (entry_totals live.entries) in
              (
                record live { entries = set live.entries i (entry_after cfg e now j.1) },
                finished cfg e j.0 now j.1,
              ))
      ]
