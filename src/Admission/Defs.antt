-- ===== src/Admission/Defs.antt =====
-- The admission policy of internal/core/admission_policy.go, its validation and its publication.
use go_keylane.Base.{
  ℕ, ◌+◌, ◌*◌, ◌%◌, ◌^◌, Bool, true, false, not, ◌||◌, String, Option, none, some, List, [], ◌∷◌,
  Result, ok, err, ◌>>◌, require, ltb, if◌then◌else◌,
}
use text.Mathlib.Text.{◌==◌ as str_eq}
use go_keylane.Base.Floats.{Float}
use go_keylane.Counters.{u64}
use go_keylane.Errors.{Error, invalid_lane, invalid_admission_policy, invalid_lane_class, stopped}
use go_keylane.Registry.{LaneRegistry, lookup_lane, name_of, lane_count}
use go_keylane.Quota.{tabulate, is_some}
use go_keylane.Scheduler.State.{LifecycleState}
use go_keylane.Scheduler.Policy.{is_stopping}
use go_keylane.Retry.Suppression.{LaneClass, other_class}

pub record LaneAdmissionEntry {ℓ} (W : Type ℓ) : Type ℓ where
  pub class : LaneClass
  pub reject_above_ratio : W
  pub max_queue_depth : ℕ

-- LanePolicyInput: the lane's name and the fields of an entry.
pub record LanePolicyInput {ℓ} (W : Type ℓ) : Type ℓ where
  pub lane : String
  pub entry : LaneAdmissionEntry W

-- AdmissionPolicyInput: the three default fields are one entry.
pub record AdmissionPolicyInput {ℓ} (W : Type ℓ) : Type ℓ where
  pub default_entry : LaneAdmissionEntry W
  pub lanes : List (LanePolicyInput W)

pub record AdmissionPolicySnapshot {ℓ} (W : Type ℓ) : Type ℓ where
  pub version : ℕ
  pub default_entry : LaneAdmissionEntry W
  pub lanes : List (LaneAdmissionEntry W)

-- ValidateLaneClass, as a test.
abbrev pub is_lane_class : LaneClass → Bool
is_lane_class (other_class name) = false
is_lane_class c = true

module _ {ℓ} {W : Type ℓ} ⦃f : Float W⦄ where
  open f use {ratio, lt}

  unfoldable pub validate_reject_ratio : W → Result Error (Unit {0})
  validate_reject_ratio r =
      require (not (lt r (ratio 0 1) || lt (ratio 1 1) r)) invalid_admission_policy

  -- The class, the ratio and the depth, in the order in which both the default and a lane are checked.
  unfoldable pub validate_admission_entry : LaneAdmissionEntry W → Result Error (Unit {0})
  unfolding validate_reject_ratio
  validate_admission_entry e = do
    require (is_lane_class e.class) invalid_lane_class
    validate_reject_ratio e.reject_above_ratio
    require (not (ltb e.max_queue_depth 1)) invalid_admission_policy

  -- The map that the source calls `seen`, as the lanes before the one that is looked at.
  unfoldable pub seen_lane : String → List (LanePolicyInput W) → Bool
  seen_lane lane [] = false
  seen_lane lane (lp ∷ rest) = str_eq lp.lane lane || seen_lane lane rest

  unfoldable pub check_lane_policies :
      LaneRegistry → List (LanePolicyInput W) → List (LanePolicyInput W) → Result Error (Unit {0})
  unfolding seen_lane validate_admission_entry
  check_lane_policies reg seen [] = ok tt
  check_lane_policies reg seen (lp ∷ rest) = do
    require (not (str_eq lp.lane "")) invalid_lane
    require (is_some (lookup_lane reg lp.lane)) invalid_admission_policy
    require (not (seen_lane lp.lane seen)) invalid_admission_policy
    validate_admission_entry lp.entry
    check_lane_policies reg (lp ∷ seen) rest

  -- The map that the source calls `override`: a later entry for a lane takes the place of an earlier.
  unfoldable pub override_of : String → List (LanePolicyInput W) → Option (LanePolicyInput W)
  override_of lane [] = none
  override_of lane (lp ∷ rest) = elim (override_of lane rest) [
    | some later ↦ some later
    | none ↦ if str_eq lp.lane lane then some lp else none
  ]

  unfoldable pub admission_entry_for :
      LaneRegistry → AdmissionPolicyInput W → ℕ → LaneAdmissionEntry W
  unfolding override_of
  admission_entry_for reg policy i = elim (override_of (name_of reg i) policy.lanes) [
    | some lp ↦ lp.entry
    | none ↦ policy.default_entry
  ]

  unfoldable pub build_admission_policy_snapshot :
      LaneRegistry → AdmissionPolicyInput W → Result Error (AdmissionPolicySnapshot W)
  unfolding validate_admission_entry check_lane_policies admission_entry_for tabulate
  build_admission_policy_snapshot reg policy = do
    validate_admission_entry policy.default_entry
    check_lane_policies reg [] policy.lanes
    ok (record {
      version = 0;
      default_entry = policy.default_entry;
      lanes = tabulate (admission_entry_for reg policy) 0 (lane_count reg);
    })

  -- The lane's depth is cut to 32 bits, and is at least 1.
  unfoldable pub default_admission_policy : ℕ → ℕ → AdmissionPolicyInput W
  default_admission_policy shard_count queue_size =
      let cut : ℕ = shard_count * queue_size % 2 ^ 32 in
      record {
        default_entry = record {
          class = LaneClass.normal;
          reject_above_ratio = ratio 9 10;
          max_queue_depth = if ltb cut 1 then 1 else cut;
        };
        lanes = [];
      }

-- The fields of the scheduler that hold the policy.
pub record AdmissionState {ℓ} (W : Type ℓ) : Type ℓ where
  pub admission_version : ℕ
  pub admission_policy : AdmissionPolicySnapshot W

module _ {ℓ} {W : Type ℓ} ⦃f : Float W⦄ where
  unfoldable pub publish_admission_policy :
      AdmissionState W → AdmissionPolicySnapshot W → AdmissionState W × ℕ
  publish_admission_policy s snap =
      let v = u64 (s.admission_version + 1) in
      (record { admission_version = v; admission_policy = record snap { version = v } }, v)

  abbrev pub admission_published : AdmissionState W × ℕ → AdmissionState W × Result Error ℕ
  admission_published (s, v) = (s, ok v)

  unfoldable pub update_admission_policy :
      LaneRegistry
      → LifecycleState
      → AdmissionState W
      → AdmissionPolicyInput W
      → AdmissionState W × Result Error ℕ
  unfolding publish_admission_policy
  update_admission_policy reg state s policy = elim (build_admission_policy_snapshot reg policy) [
    | err e ↦ (s, err e)
    | ok snap ↦
        if is_stopping state
        then (s, err stopped)
        else admission_published (publish_admission_policy s snap)
  ]

  -- Every lane of a snapshot by its name, from the lane `i` on.
  unfoldable pub view_lanes :
      LaneRegistry → ℕ → List (LaneAdmissionEntry W) → List (LanePolicyInput W)
  view_lanes reg i [] = []
  view_lanes reg i (e ∷ rest) =
      record { lane = name_of reg i; entry = e } ∷ view_lanes reg (i + 1) rest

  unfoldable pub current_admission_policy_view :
      LaneRegistry → AdmissionPolicySnapshot W → ℕ × AdmissionPolicyInput W
  unfolding view_lanes
  current_admission_policy_view reg snap = (
    snap.version,
    record { default_entry = snap.default_entry; lanes = view_lanes reg 0 snap.lanes },
  )
