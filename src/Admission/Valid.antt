-- ===== src/Admission/Valid.antt =====
-- What buildAdmissionPolicySnapshot of internal/core/admission_policy.go makes of a policy that passes.
use go_keylane.Base.{
  ◌≡◌, refl, sym, subst, ℕ, inl, inr, String, Bool, true, false, not, none, some, List, [], ◌∷◌,
  Result, ok, length, All, Option-cases, if◌then◌else◌,
}
use text.Mathlib.Text.{◌==◌ as str_eq}
use go_keylane.Base.Floats.{Float}
use go_keylane.Errors.{Error, invalid_lane, invalid_admission_policy}
use go_keylane.Registry.{LaneRegistry, lookup_lane, name_of, lane_count}
use go_keylane.Quota.{is_some}
use go_keylane.Quota.Bounds.{require_ok, then_ok, tabulate-All, length-tabulate}
use go_keylane.Admission.Defs.{
  LaneAdmissionEntry, LanePolicyInput, AdmissionPolicyInput, AdmissionPolicySnapshot,
  validate_admission_entry, seen_lane, check_lane_policies, override_of, admission_entry_for,
  build_admission_policy_snapshot,
}

module _ {ℓ} {W : Type ℓ} ⦃f : Float W⦄ where
  -- An entry that passes the validation.
  abbrev pub IsValidEntry : LaneAdmissionEntry W → Type 0
  IsValidEntry e = validate_admission_entry e ≡ ok tt

  -- A lane for each of the registry's, and every entry valid.
  abbrev pub IsValidSnapshot : LaneRegistry → AdmissionPolicySnapshot W → Type 0
  IsValidSnapshot reg snap =
      (length snap.lanes ≡ lane_count reg)
      × IsValidEntry snap.default_entry
      × All IsValidEntry snap.lanes

  pub snapshots_agree :
      {s t : AdmissionPolicySnapshot W}
      → ◌≡◌ {A = Result Error (AdmissionPolicySnapshot W)} (ok s) (ok t)
      → s ≡ t
  snapshots_agree c = cc

  taken :
      (b : Bool) (lp : LanePolicyInput W) {q : LanePolicyInput W}
      → (if b then some lp else none) ≡ some q
      → lp ≡ q
  taken true lp h = cc
  taken false lp h = cc

  check-IsValidEntry :
      (reg : LaneRegistry) (seen lanes : List (LanePolicyInput W)) (name : String)
      (q : LanePolicyInput W)
      → check_lane_policies reg seen lanes ≡ ok tt
      → override_of name lanes ≡ some q
      → IsValidEntry q.entry
  unfolding check_lane_policies override_of
  check-IsValidEntry reg seen [] name q c o = cc
  check-IsValidEntry reg seen (lp ∷ rest) name q c o =
      let (a, c₁) = require_ok (not (str_eq lp.lane "")) invalid_lane _ c in
      let (b, c₂) = require_ok (is_some (lookup_lane reg lp.lane)) invalid_admission_policy _ c₁ in
      let (d, c₃) = require_ok (not (seen_lane lp.lane seen)) invalid_admission_policy _ c₂ in
      let (valid, c₄) =
        then_ok (validate_admission_entry lp.entry) (check_lane_policies reg (lp ∷ seen) rest) c₃ in
      elim (Option-cases (override_of name rest)) [
        | inl e ↦
            subst (λ x. IsValidEntry x.entry)
              (taken (str_eq lp.lane name) lp (
                subst
                  (λ r.
                    (elim r [
                      | some later ↦ some later
                      | none ↦ if str_eq lp.lane name then some lp else none
                    ])
                    ≡ some q)
                  e o))
              valid
        | inr (later, e) ↦ check-IsValidEntry reg (lp ∷ seen) rest name q c₄ (
            subst
              (λ r.
                (elim r [
                  | some later ↦ some later
                  | none ↦ if str_eq lp.lane name then some lp else none
                ])
                  ≡ some q
                → r ≡ some q)
              (sym e) (λ h. h) o)
      ]

  admission_entry_for-IsValidEntry :
      (reg : LaneRegistry) (policy : AdmissionPolicyInput W) (i : ℕ)
      → IsValidEntry policy.default_entry
      → check_lane_policies reg [] policy.lanes ≡ ok tt
      → IsValidEntry (admission_entry_for reg policy i)
  unfolding admission_entry_for
  admission_entry_for-IsValidEntry reg policy i valid c =
      elim (Option-cases (override_of (name_of reg i) policy.lanes)) [
        | inl e ↦ subst IsValidEntry (rw (e, admission_entry_for) refl) valid
        | inr (q, e) ↦
            subst IsValidEntry (rw (e, admission_entry_for) refl)
              (check-IsValidEntry reg [] policy.lanes (name_of reg i) q c e)
      ]

  -- A policy that buildAdmissionPolicySnapshot accepts gives a snapshot with one entry for each lane of
  -- the registry, in which the default entry and every lane's entry pass the validation.
  pub build_admission_policy_snapshot-IsValidSnapshot :
      (reg : LaneRegistry) (policy : AdmissionPolicyInput W) {snap : AdmissionPolicySnapshot W}
      → build_admission_policy_snapshot reg policy ≡ ok snap
      → IsValidSnapshot reg snap
  unfolding build_admission_policy_snapshot
  build_admission_policy_snapshot-IsValidSnapshot reg policy c =
      let (valid, c₁) = then_ok (validate_admission_entry policy.default_entry) _ c in
      let (each, c₂) = then_ok (check_lane_policies reg [] policy.lanes) _ c₁ in
      subst (IsValidSnapshot reg) (snapshots_agree c₂) (
        length-tabulate (admission_entry_for reg policy) 0 (lane_count reg),
        valid,
        tabulate-All IsValidEntry (admission_entry_for reg policy) 0 (lane_count reg)
            (λ i. admission_entry_for-IsValidEntry reg policy i valid each),
      )
