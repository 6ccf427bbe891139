-- ===== src/Adaptive/Resolving.antt =====
-- The policies that resolveAdaptiveLanePolicies of internal/core/adaptive_quota_policy.go makes.
use go_keylane.Base.{
  ℕ, ◌≤◌, ◌≡◌, Bool, true, false, String, Option, none, some, List, [], ◌∷◌, All, arith,
  if◌then◌else◌,
}
use text.Mathlib.Text.{◌==◌ as str_eq}
use go_keylane.Base.Ints.{ℤ, pos, negsuc, int_ltb, to_nat}
use go_keylane.Registry.{LaneRegistry, name_of, lane_count}
use go_keylane.Quota.Bounds.{tabulate-All}
use go_keylane.Retry.Suppression.{LaneClass}
use go_keylane.Admission.Defs.{AdmissionPolicySnapshot}
use go_keylane.Adaptive.Defs.{ResolvedPolicy}
use go_keylane.Adaptive.Resolve.{
  LaneAdaptivePolicy, is_set, default_resolved_policy, merge_policy, finish_policy, explicit_for,
  resolved_from, admission_class, initial_quota, resolve_lane, resolve_adaptive_lane_policies,
}

-- What ValidateAdaptiveQuotaPolicy asks of a lane's quotas.
abbrev pub HasBounds : LaneAdaptivePolicy → Type 0
HasBounds lp =
    (int_ltb lp.min_quota (pos 1) ≡ false)
    × (int_ltb lp.max_quota lp.min_quota ≡ false)
    × (int_ltb (pos 1024) lp.max_quota ≡ false)

abbrev pub InOrder : ResolvedPolicy → Type 0
InOrder pol = (1 ≤ pol.min_quota) × (pol.min_quota ≤ pol.max_quota) × (pol.max_quota ≤ 1024)

-- The lower bound is small enough for the upper bound to be cut to 1024.
abbrev IsLow : ResolvedPolicy → Type 0
IsLow pol = (1 ≤ pol.min_quota) × (pol.min_quota ≤ 1024)

finish-InOrder : (r : ResolvedPolicy) (id : ℕ) → IsLow r → InOrder (finish_policy r id)
unfolding finish_policy
finish-InOrder r id (h, k) = ground arith

default-IsLow :
    (lane : String) (class : LaneClass) (initial : ℕ)
    → IsLow (default_resolved_policy lane class initial)
unfolding default_resolved_policy
default-IsLow lane class initial = (omega arith, omega arith)

low_bound :
    (least most : ℤ)
    → int_ltb least (pos 1) ≡ false
    → int_ltb most least ≡ false
    → int_ltb (pos 1024) most ≡ false
    → (1 ≤ to_nat least) × (to_nat least ≤ 1024)
low_bound (pos a) (pos b) h₁ h₂ h₃ = ground arith
low_bound (pos a) (negsuc b) h₁ h₂ h₃ = cc
low_bound (negsuc a) b h₁ h₂ h₃ = cc

merge-IsLow :
    (r : ResolvedPolicy) (lp : LaneAdaptivePolicy) → HasBounds lp → IsLow (merge_policy r lp)
unfolding merge_policy
merge-IsLow r lp (h₁, h₂, h₃) = rw h₁ (low_bound lp.min_quota lp.max_quota h₁ h₂ h₃)

abbrev HasBoundsIfSet : Option LaneAdaptivePolicy → Type 0
HasBoundsIfSet none = Unit
HasBoundsIfSet (some lp) = HasBounds lp

later_first :
    (o : Option LaneAdaptivePolicy) (b : Bool) (lp : LaneAdaptivePolicy)
    → HasBoundsIfSet o
    → HasBounds lp
    → HasBoundsIfSet (elim o [ some later ↦ some later | none ↦ if b then some lp else none ])
later_first (some later) b lp h k = h
later_first none true lp h k = k
later_first none false lp h k = tt

explicit_for-HasBounds :
    (name : String) (lps : List LaneAdaptivePolicy)
    → All HasBounds lps
    → HasBoundsIfSet (explicit_for name lps)
unfolding explicit_for
explicit_for-HasBounds name [] all = tt
explicit_for-HasBounds name (lp ∷ rest) (h, hs) =
    later_first (explicit_for name rest) (str_eq lp.lane name) lp
      (explicit_for-HasBounds name rest hs) h

resolved_from-InOrder :
    (name : String) (class : LaneClass) (initial i : ℕ) (o : Option LaneAdaptivePolicy)
    → HasBoundsIfSet o
    → InOrder (resolved_from name class initial i o)
unfolding resolved_from
resolved_from-InOrder name class initial i none h =
    finish-InOrder (default_resolved_policy name class initial) i (default-IsLow name class initial)
resolved_from-InOrder name class initial i (some lp) h =
    let own : LaneClass = if is_set lp.class then lp.class else class in
    let r : ResolvedPolicy = default_resolved_policy name own initial in
    finish-InOrder (merge_policy r lp) i (merge-IsLow r lp h)

module _ {ℓ} {W : Type ℓ} where
  resolve_lane-InOrder :
      (reg : LaneRegistry) (adm : AdmissionPolicySnapshot W) (explicit : List LaneAdaptivePolicy)
      (initial : List (String × ℕ)) (i : ℕ)
      → All HasBounds explicit
      → InOrder (resolve_lane reg adm explicit initial i)
  unfolding resolve_lane
  resolve_lane-InOrder reg adm explicit initial i all =
      resolved_from-InOrder (name_of reg i) (admission_class adm i) (initial_quota reg initial i) i
        (explicit_for (name_of reg i) explicit)
        (explicit_for-HasBounds (name_of reg i) explicit all)

  -- Where every explicit policy has bounds that ValidateAdaptiveQuotaPolicy accepts, the policy of
  -- every lane has bounds in order, from 1 to 1024.
  pub resolve_adaptive_lane_policies-InOrder :
      (reg : LaneRegistry) (adm : AdmissionPolicySnapshot W) (explicit : List LaneAdaptivePolicy)
      (initial : List (String × ℕ))
      → All HasBounds explicit
      → All InOrder (resolve_adaptive_lane_policies reg adm explicit initial)
  unfolding resolve_adaptive_lane_policies
  resolve_adaptive_lane_policies-InOrder reg adm explicit initial all =
      tabulate-All InOrder (resolve_lane reg adm explicit initial) 0 (lane_count reg)
        (λ i. resolve_lane-InOrder reg adm explicit initial i all)
