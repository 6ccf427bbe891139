-- ===== src/Overload/Defs.antt =====
-- The operations of internal/core/overload_policy.go on a policy and its snapshot.
use go_keylane.Base.{
  ℕ, ◌+◌, Bool, true, false, not, ◌&&◌, ◌||◌, String, Option, none, some, List, [], ◌∷◌, Result, ok,
  ◌>>◌, require, ltb, if◌then◌else◌,
}
use text.Mathlib.Text.{◌==◌ as str_eq}
use go_keylane.Base.Ints.{ℤ, pos, int_ltb}
use go_keylane.Base.Floats.{Float, is_zero}
use go_keylane.Errors.{Error, invalid_lane, invalid_overload_policy, invalid_lane_class}
use go_keylane.Registry.{LaneRegistry, lookup_lane, name_of, lane_count}
use go_keylane.Quota.{tabulate, is_some}
use go_keylane.Failure.Defs.{OverloadAction}
use go_keylane.Retry.Suppression.{LaneClass, normal, other_class}
use go_keylane.Admission.Defs.{is_lane_class}

pub data OverloadReason : Type 0 where
  no_reason global_pressure_high lane_pressure_high lane_depth_exceeded : OverloadReason
  queue_full queue_closed best_effort_shedding background_shedding : OverloadReason
  degrade_preferred : OverloadReason

pub record LaneOverloadEntry {ℓ} (W : Type ℓ) : Type ℓ where
  pub class : LaneClass
  pub reject_above_ratio : W
  pub shed_above_ratio : W
  pub degrade_above_ratio : W
  pub max_queue_depth : ℕ
  pub retry_after : ℤ
  pub min_backoff : ℤ
  pub max_backoff : ℤ
  pub jitter : Bool

pub record LaneOverloadPolicyInput {ℓ} (W : Type ℓ) : Type ℓ where
  pub lane : String
  pub class : LaneClass
  pub reject_above_ratio : W
  pub shed_above_ratio : W
  pub degrade_above_ratio : W
  pub max_queue_depth : ℕ
  pub retry_after : ℤ
  pub min_backoff : ℤ
  pub max_backoff : ℤ
  pub jitter : Bool

pub record OverloadPolicyInput {ℓ} (W : Type ℓ) : Type ℓ where
  pub default_input : LaneOverloadPolicyInput W
  pub lanes : List (LaneOverloadPolicyInput W)

pub record OverloadPolicySnapshot {ℓ} (W : Type ℓ) : Type ℓ where
  pub version : ℕ
  pub default_policy : LaneOverloadEntry W
  pub lanes : List (LaneOverloadEntry W)

pub record OverloadSignals {ℓ} (W : Type ℓ) : Type ℓ where
  pub global_pressure : W
  pub lane_pressure : W
  pub lane_depth : ℕ
  pub queue_full : Bool
  pub queue_closed : Bool

pub record OverloadEvalResult {ℓ} (W : Type ℓ) : Type ℓ where
  pub action : OverloadAction
  pub reason : OverloadReason
  pub class : LaneClass
  pub pressure : W
  pub lane_depth : ℕ
  pub max_depth : ℕ
  pub retry_after : ℤ
  pub min_backoff : ℤ
  pub max_backoff : ℤ
  pub jitter : Bool
  pub policy_version : ℕ

-- `if class == "" { class = LaneClassNormal }`
abbrev pub class_or_normal : LaneClass → LaneClass
class_or_normal (other_class name) = if str_eq name "" then normal else other_class name
class_or_normal c = c

unfoldable pub validate_backoff_durations : ℤ → ℤ → ℤ → Result Error (Unit {0})
validate_backoff_durations retry_after least most = do
  require (not (int_ltb retry_after (pos 0))) invalid_overload_policy
  require (not (int_ltb least (pos 0))) invalid_overload_policy
  require (not (int_ltb most (pos 0))) invalid_overload_policy
  require (not (int_ltb (pos 0) most && int_ltb most least)) invalid_overload_policy
  require (not (int_ltb (pos 0) most && int_ltb most retry_after)) invalid_overload_policy

module _ {ℓ} {W : Type ℓ} ⦃f : Float W⦄ where
  open f use {ratio, lt, le}

  unfoldable pub validate_overload_ratio : W → Result Error (Unit {0})
  validate_overload_ratio r =
      require (not (lt r (ratio 0 1) || lt (ratio 1 1) r)) invalid_overload_policy

  unfoldable pub validate_lane_overload_policy_input :
      LaneOverloadPolicyInput W → LaneRegistry → Bool → Result Error (Unit {0})
  unfolding validate_overload_ratio validate_backoff_durations
  validate_lane_overload_policy_input lp reg require_lane = do
    require (not (require_lane && str_eq lp.lane "")) invalid_lane
    require (not require_lane || is_some (lookup_lane reg lp.lane)) invalid_overload_policy
    require (is_lane_class (class_or_normal lp.class)) invalid_lane_class
    validate_overload_ratio lp.reject_above_ratio
    validate_overload_ratio lp.shed_above_ratio
    validate_overload_ratio lp.degrade_above_ratio
    require
        (not (lt lp.shed_above_ratio (ratio 1 1) && lt lp.reject_above_ratio lp.shed_above_ratio))
        invalid_overload_policy
    require
        (not (
          lt lp.degrade_above_ratio (ratio 1 1) && lt lp.reject_above_ratio lp.degrade_above_ratio))
        invalid_overload_policy
    require (not (ltb lp.max_queue_depth 1)) invalid_overload_policy
    validate_backoff_durations lp.retry_after lp.min_backoff lp.max_backoff

  -- `if r == 0 { r = 1.0 }`
  abbrev pub one_if_zero : W → W
  one_if_zero r = if is_zero r then ratio 1 1 else r

  unfoldable pub lane_entry_from_input : LaneOverloadPolicyInput W → LaneOverloadEntry W
  lane_entry_from_input lp = record {
    class = class_or_normal lp.class;
    reject_above_ratio = lp.reject_above_ratio;
    shed_above_ratio = one_if_zero lp.shed_above_ratio;
    degrade_above_ratio = one_if_zero lp.degrade_above_ratio;
    max_queue_depth = lp.max_queue_depth;
    retry_after = lp.retry_after;
    min_backoff = lp.min_backoff;
    max_backoff = lp.max_backoff;
    jitter = lp.jitter;
  }

  unfoldable pub lane_overload_policy_input_from_entry :
      LaneOverloadEntry W → String → LaneOverloadPolicyInput W
  lane_overload_policy_input_from_entry e lane = record {
    lane = lane;
    class = e.class;
    reject_above_ratio = e.reject_above_ratio;
    shed_above_ratio = e.shed_above_ratio;
    degrade_above_ratio = e.degrade_above_ratio;
    max_queue_depth = e.max_queue_depth;
    retry_after = e.retry_after;
    min_backoff = e.min_backoff;
    max_backoff = e.max_backoff;
    jitter = e.jitter;
  }

  -- The map that the source calls `seen`, as the lanes before the one that is looked at.
  unfoldable pub has_lane : String → List (LaneOverloadPolicyInput W) → Bool
  has_lane lane [] = false
  has_lane lane (lp ∷ rest) = str_eq lp.lane lane || has_lane lane rest

  unfoldable pub check_lanes :
      LaneRegistry
      → List (LaneOverloadPolicyInput W)
      → List (LaneOverloadPolicyInput W)
      → Result Error (Unit {0})
  unfolding has_lane validate_lane_overload_policy_input
  check_lanes reg seen [] = ok tt
  check_lanes reg seen (lp ∷ rest) = do
    require (not (has_lane lp.lane seen)) invalid_overload_policy
    validate_lane_overload_policy_input lp reg true
    check_lanes reg (lp ∷ seen) rest

  -- The map that the source calls `override`: a later entry for a lane takes the place of an earlier.
  unfoldable pub override_for :
      String → List (LaneOverloadPolicyInput W) → Option (LaneOverloadPolicyInput W)
  override_for lane [] = none
  override_for lane (lp ∷ rest) = elim (override_for lane rest) [
    | some later ↦ some later
    | none ↦ if str_eq lp.lane lane then some lp else none
  ]

  unfoldable pub entry_for : LaneRegistry → OverloadPolicyInput W → ℕ → LaneOverloadEntry W
  unfolding override_for lane_entry_from_input
  entry_for reg policy i = elim (override_for (name_of reg i) policy.lanes) [
    | some lp ↦ lane_entry_from_input lp
    | none ↦ lane_entry_from_input policy.default_input
  ]

  unfoldable pub build_overload_policy_snapshot :
      LaneRegistry → OverloadPolicyInput W → Result Error (OverloadPolicySnapshot W)
  unfolding validate_lane_overload_policy_input check_lanes entry_for tabulate
  build_overload_policy_snapshot reg policy = do
    validate_lane_overload_policy_input policy.default_input reg false
    check_lanes reg [] policy.lanes
    ok (record {
      version = 0;
      default_policy = lane_entry_from_input policy.default_input;
      lanes = tabulate (entry_for reg policy) 0 (lane_count reg);
    })

  -- The policy of a view: every lane by its name, from `i` on.
  unfoldable pub view_from :
      LaneRegistry → ℕ → List (LaneOverloadEntry W) → List (LaneOverloadPolicyInput W)
  view_from reg i [] = []
  view_from reg i (e ∷ rest) =
      lane_overload_policy_input_from_entry e (name_of reg i) ∷ view_from reg (i + 1) rest

  unfoldable pub current_overload_policy_view :
      LaneRegistry → OverloadPolicySnapshot W → ℕ × OverloadPolicyInput W
  unfolding view_from lane_overload_policy_input_from_entry
  current_overload_policy_view reg snap = (
    snap.version,
    record {
      default_input = lane_overload_policy_input_from_entry snap.default_policy "";
      lanes = view_from reg 0 snap.lanes;
    },
  )
