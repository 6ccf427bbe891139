-- ===== src/Adaptive/Resolve.antt =====
-- internal/core/adaptive_quota_policy.go: the policy of each lane.
use go_keylane.Base.{
  ℕ, Bool, true, false, not, String, Option, none, some, List, [], ◌∷◌, ltb, get_elem?,
  if◌then◌else◌,
}
use text.Mathlib.Text.{◌==◌ as str_eq}
use go_keylane.Base.Ints.{ℤ, pos, int_ltb, to_nat}
use go_keylane.Registry.{LaneRegistry, find, name_of, quota_of, lane_count}
use go_keylane.Quota.{max_lane_quota, tabulate}
use go_keylane.Retry.Suppression.{LaneClass, critical, background, best_effort, other_class}
use go_keylane.Admission.Defs.{AdmissionPolicySnapshot}
use go_keylane.Adaptive.Defs.{ResolvedPolicy}

-- LaneAdaptivePolicy, as the client gives it: its quotas may be below zero.
pub record LaneAdaptivePolicy : Type 0 where
  pub lane : String
  pub class : LaneClass
  pub enabled : Bool
  pub min_quota : ℤ
  pub max_quota : ℤ
  pub allow_increase : Bool
  pub allow_decrease : Bool
  pub target_queue_wait : ℤ
  pub target_run_time : ℤ

abbrev pub is_set : LaneClass → Bool
is_set (other_class name) = not (str_eq name "")
is_set c = true

abbrev may_increase : LaneClass → Bool
may_increase background = false
may_increase best_effort = false
may_increase _ = true

abbrev may_decrease : LaneClass → Bool
may_decrease critical = false
may_decrease _ = true

abbrev default_target : LaneClass → ℤ
default_target critical = pos 20_000_000
default_target background = pos 100_000_000
default_target _ = pos 50_000_000

-- `if q < 1 { q = 1 }` and `if q > int(MaxLaneQuota) { q = int(MaxLaneQuota) }`
abbrev in_bounds : ℕ → ℕ
in_bounds q =
    let low : ℕ = if ltb q 1 then 1 else q in if ltb max_lane_quota low then max_lane_quota else low

unfoldable pub default_resolved_policy : String → LaneClass → ℕ → ResolvedPolicy
default_resolved_policy lane class initial = record {
  lane_id = 0;
  lane = lane;
  class = class;
  enabled = true;
  min_quota = 1;
  max_quota = in_bounds initial;
  allow_increase = may_increase class;
  allow_decrease = may_decrease class;
  target_queue_wait = default_target class;
  target_run_time = pos 0;
}

-- What an explicit policy changes. Both `Allow` fields are taken over, also where both are false.
unfoldable pub merge_policy : ResolvedPolicy → LaneAdaptivePolicy → ResolvedPolicy
merge_policy r lp =
    let low : ℕ = if int_ltb lp.min_quota (pos 1) then r.min_quota else to_nat lp.min_quota in
    record r {
      enabled = lp.enabled;
      min_quota = low;
      max_quota = if int_ltb lp.max_quota (pos low) then r.max_quota else to_nat lp.max_quota;
      target_queue_wait =
          if int_ltb (pos 0) lp.target_queue_wait
          then lp.target_queue_wait
          else r.target_queue_wait;
      target_run_time =
          if int_ltb (pos 0) lp.target_run_time then lp.target_run_time else r.target_run_time;
      allow_increase = lp.allow_increase;
      allow_decrease = lp.allow_decrease;
    }

-- The two tests after the merge, and the id.
unfoldable pub finish_policy : ResolvedPolicy → ℕ → ResolvedPolicy
finish_policy r id =
    let high : ℕ = if ltb r.max_quota r.min_quota then r.min_quota else r.max_quota in
    record r { lane_id = id; max_quota = if ltb max_lane_quota high then max_lane_quota else high }

-- `byName`: a later entry for a lane takes the place of an earlier.
unfoldable pub explicit_for : String → List LaneAdaptivePolicy → Option LaneAdaptivePolicy
explicit_for lane [] = none
explicit_for lane (lp ∷ rest) = elim (explicit_for lane rest) [
  | some later ↦ some later
  | none ↦ if str_eq lp.lane lane then some lp else none
]

-- The policy of a lane from its explicit policy, if it has one. `class` is the admission policy's.
unfoldable pub resolved_from :
    String → LaneClass → ℕ → ℕ → Option LaneAdaptivePolicy → ResolvedPolicy
unfolding default_resolved_policy merge_policy finish_policy
resolved_from name class initial i none =
    finish_policy (default_resolved_policy name class initial) i
resolved_from name class initial i (some lp) =
    let own : LaneClass = if is_set lp.class then lp.class else class in
    finish_policy (merge_policy (default_resolved_policy name own initial) lp) i

-- The lane's quota at the start.
abbrev pub initial_quota : LaneRegistry → List (String × ℕ) → ℕ → ℕ
initial_quota reg initial_quotas i =
    let given : ℕ = elim (find (name_of reg i) initial_quotas) [ none ↦ 0 | some q ↦ q ] in
    if ltb given 1 then quota_of reg i else given

module _ {ℓ} {W : Type ℓ} where
  -- The class that the admission policy has for the lane.
  unfoldable pub admission_class : AdmissionPolicySnapshot W → ℕ → LaneClass
  admission_class adm i = elim (get_elem? adm.lanes i) [
    | none ↦ adm.default_entry.class
    | some e ↦ if is_set e.class then e.class else adm.default_entry.class
  ]

  unfoldable pub resolve_lane :
      LaneRegistry
      → AdmissionPolicySnapshot W
      → List LaneAdaptivePolicy
      → List (String × ℕ)
      → ℕ
      → ResolvedPolicy
  unfolding resolved_from explicit_for admission_class
  resolve_lane reg adm explicit initial_quotas i =
      let name : String = name_of reg i in
      resolved_from name (admission_class adm i) (initial_quota reg initial_quotas i) i
        (explicit_for name explicit)

  unfoldable pub resolve_adaptive_lane_policies :
      LaneRegistry
      → AdmissionPolicySnapshot W
      → List LaneAdaptivePolicy
      → List (String × ℕ)
      → List ResolvedPolicy
  unfolding resolve_lane tabulate
  resolve_adaptive_lane_policies reg adm explicit initial_quotas =
      tabulate (resolve_lane reg adm explicit initial_quotas) 0 (lane_count reg)
