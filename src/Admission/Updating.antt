-- ===== src/Admission/Updating.antt =====
-- What UpdateAdmissionPolicy of internal/core/admission_policy.go leaves to be read.
use go_keylane.Base.{
  ◌≡◌, refl, subst, ap, sym, ◌∙◌, ℕ, ◌+◌, Bool, true, false, [], Result, ok, err, if◌then◌else◌,
}
use go_keylane.Base.Floats.{Float}
use go_keylane.Counters.{u64}
use go_keylane.Errors.{Error, stopped}
use go_keylane.Registry.{LaneRegistry}
use go_keylane.Scheduler.State.{LifecycleState}
use go_keylane.Scheduler.Policy.{is_stopping}
use go_keylane.Quota.Bounds.{then_ok}
use go_keylane.Admission.Defs.{
  AdmissionPolicyInput, AdmissionPolicySnapshot, AdmissionState, admission_published,
  publish_admission_policy, update_admission_policy, current_admission_policy_view,
  build_admission_policy_snapshot, validate_admission_entry, check_lane_policies,
}
use go_keylane.Admission.Valid.{
  IsValidSnapshot, snapshots_agree, build_admission_policy_snapshot-IsValidSnapshot,
}

module _ {ℓ} {W : Type ℓ} ⦃f : Float W⦄ where
  -- What UpdateAdmissionPolicy does with the snapshot that was built.
  abbrev settled :
      AdmissionState W
      → Bool
      → Result Error (AdmissionPolicySnapshot W)
      → AdmissionState W × Result Error ℕ
  unfolding publish_admission_policy
  settled s stopping r = elim r [
    | err e ↦ (s, err e)
    | ok snap ↦
        if stopping then (s, err stopped) else admission_published (publish_admission_policy s snap)
  ]

  -- The state holds the snapshot, under the version that was returned.
  abbrev Holds : AdmissionState W → ℕ → AdmissionPolicySnapshot W → Type ℓ
  Holds s v snap = s.admission_policy ≡ record snap { version = v }

  settled-Holds :
      (s : AdmissionState W) (stopping : Bool) (r : Result Error (AdmissionPolicySnapshot W))
      {v : ℕ}
      → (settled s stopping r).1 ≡ ok v
      → (stopping ≡ false)
        × (snap : AdmissionPolicySnapshot W) × (r ≡ ok snap)
        × Holds (settled s stopping r).0 v snap
  unfolding settled
  settled-Holds s stopping (err e) h = cc
  settled-Holds s true (ok snap) h = cc
  settled-Holds s false (ok snap) {v} h =
      let same : u64 (s.admission_version + 1) ≡ v = cc in
      (refl, snap, refl, ap (λ n. record snap { version = n }) same)

  default_of :
      (reg : LaneRegistry) (policy : AdmissionPolicyInput W) {snap : AdmissionPolicySnapshot W}
      → build_admission_policy_snapshot reg policy ≡ ok snap
      → policy.default_entry ≡ snap.default_entry
  unfolding build_admission_policy_snapshot
  default_of reg policy c =
      let (valid, c₁) = then_ok (validate_admission_entry policy.default_entry) _ c in
      let (each, c₂) = then_ok (check_lane_policies reg [] policy.lanes) _ c₁ in
      ap (λ s. s.default_entry) (snapshots_agree c₂)

  -- An update that returns a version was made on a scheduler that is not stopping, and the policy that
  -- is read from then on has that version, the given default, and a valid entry for each lane.
  pub update_admission_policy-current :
      (reg : LaneRegistry) (state : LifecycleState) (s : AdmissionState W)
      (policy : AdmissionPolicyInput W) {v : ℕ}
      → (update_admission_policy reg state s policy).1 ≡ ok v
      → (is_stopping state ≡ false)
        × ((current_admission_policy_view reg
              (update_admission_policy reg state s policy).0.admission_policy).0
            ≡ v)
        × ((current_admission_policy_view reg
              (update_admission_policy reg state s policy).0.admission_policy).1.default_entry
            ≡ policy.default_entry)
        × IsValidSnapshot reg (update_admission_policy reg state s policy).0.admission_policy
  unfolding update_admission_policy current_admission_policy_view settled
  update_admission_policy-current reg state s policy {v} h =
      let (runs, snap, built, held) =
        settled-Holds s (is_stopping state) (build_admission_policy_snapshot reg policy) h in
      (
        runs,
        ap (λ p. p.version) held,
        ap (λ p. p.default_entry) held ∙ sym (default_of reg policy built),
        subst (IsValidSnapshot reg) (sym held)
            (build_admission_policy_snapshot-IsValidSnapshot reg policy built),
      )
