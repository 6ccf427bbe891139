-- ===== src/Retry/Suppression.antt =====
-- The types and the policy of retry_suppression.go.
use go_keylane.Base.{
  ℕ, Bool, true, false, not, ◌&&◌, ◌||◌, String, Option, none, some, Result, ok, ◌>>◌, require,
  if◌then◌else◌,
}
use go_keylane.Base.Floats.{Float, is_zero}
use go_keylane.Deadline.{DeadlineBudget}
use go_keylane.Failure.Defs.{Failure}
use go_keylane.Retry.Policy.{RetryPolicy}
use go_keylane.Retry.Safety.{Idempotency}

-- lane_class.go; `other_class` is a text that is not a constant of the source.
pub data LaneClass : Type 0 where
  critical normal background best_effort : LaneClass
  other_class : String → LaneClass

-- `no_reason` is the empty text and `other_reason` one that a hook makes up.
pub data RetrySuppressionReason : Type 0 where
  no_reason not_suppressed disabled global_pressure global_overload : RetrySuppressionReason
  lane_pressure shard_pressure overload_failure admission_failure : RetrySuppressionReason
  per_key_admission hot_key scale_out_recommended hook_rejected : RetrySuppressionReason
  hook_failed : RetrySuppressionReason
  other_reason : String → RetrySuppressionReason

-- Pressure of pressure.go.
pub record Pressure {ℓ} (W : Type ℓ) : Type ℓ where
  pub total_depth : ℕ
  pub total_capacity : ℕ
  pub total_in_flight : ℕ
  pub total_depth_ratio : W
  pub is_healthy : Bool
  pub is_pressured : Bool
  pub is_overloaded : Bool

-- `recommended` is the one field of the scale signal that is read.
pub record RetrySuppressionSnapshot {ℓ} (W : Type ℓ) : Type ℓ where
  pub pressure : Pressure W
  pub lane_depth_ratio : W
  pub shard_depth_ratio : W
  pub recommended : Bool
  pub lane_class : LaneClass
  pub hot_key_candidate : Bool

pub record RetrySuppressionCheck {ℓ} (W : Type ℓ) : Type ℓ where
  pub key : String
  pub lane : String
  pub shard_id : ℕ
  pub attempt : ℕ
  pub failure : Failure
  pub retry : RetryPolicy W
  pub budget : DeadlineBudget
  pub snapshot : RetrySuppressionSnapshot W
  pub idempotency : Idempotency

-- The parts of a decision that are not copied from the check.
pub record RetrySuppressionDecision : Type 0 where
  pub suppress : Bool
  pub reason : RetrySuppressionReason
  pub message : String

-- `hook` gives `none` where it panics.
pub record RetrySuppressionPolicy {ℓ} (W : Type ℓ) : Type ℓ where
  pub enabled : Bool
  pub suppress_when_overloaded : Bool
  pub suppress_non_critical_when_pressured : Bool
  pub suppress_lane_above_ratio : W
  pub suppress_shard_above_ratio : W
  pub suppress_overload_failures : Bool
  pub suppress_admission_failures : Bool
  pub suppress_per_key_admission_failures : Bool
  pub suppress_hot_key_retry : Bool
  pub allow_critical_hot_key_retry : Bool
  pub suppress_when_scale_out_recommended : Bool
  pub hook : Option (RetrySuppressionCheck W → Option RetrySuppressionDecision)

abbrev is_none {κ} : {A : Type κ} → Option A → Bool
is_none none = true
is_none (some _) = false

module _ {ℓ} {W : Type ℓ} ⦃f : Float W⦄ where
  open f use {ratio, lt, le}

  -- No test is switched on.
  unfoldable pub is_blank : RetrySuppressionPolicy W → Bool
  is_blank cfg =
      not cfg.suppress_when_overloaded
      && not cfg.suppress_non_critical_when_pressured
      && not cfg.suppress_overload_failures
      && not cfg.suppress_admission_failures
      && not cfg.suppress_per_key_admission_failures
      && not cfg.suppress_hot_key_retry
      && not cfg.suppress_when_scale_out_recommended
      && is_zero cfg.suppress_lane_above_ratio
      && is_zero cfg.suppress_shard_above_ratio
      && is_none cfg.hook

  abbrev all_tests : RetrySuppressionPolicy W → RetrySuppressionPolicy W
  all_tests cfg = record cfg {
    suppress_when_overloaded = true;
    suppress_non_critical_when_pressured = true;
    suppress_overload_failures = true;
    suppress_admission_failures = true;
    suppress_per_key_admission_failures = true;
    suppress_hot_key_retry = true;
    suppress_when_scale_out_recommended = true;
  }

  -- PressuredDepthRatio is 0.70.
  abbrev ratio_or_default : W → W
  ratio_or_default x = if is_zero x then ratio 7 10 else x

  unfoldable pub normalize_retry_suppression_policy :
      RetrySuppressionPolicy W → RetrySuppressionPolicy W
  unfolding is_blank
  normalize_retry_suppression_policy cfg =
      let tests : RetrySuppressionPolicy W = if is_blank cfg then all_tests cfg else cfg in
      if not cfg.enabled then cfg else record tests {
        suppress_lane_above_ratio = ratio_or_default cfg.suppress_lane_above_ratio;
        suppress_shard_above_ratio = ratio_or_default cfg.suppress_shard_above_ratio;
      }

  unfoldable pub validate_suppression_ratio : W → String → Result String (Unit {0})
  validate_suppression_ratio r name =
      if is_zero r then ok tt else require (not (le r (ratio 0 1) || lt (ratio 1 1) r)) name

  unfoldable pub validate_retry_suppression_policy :
      RetrySuppressionPolicy W → Result String (Unit {0})
  unfolding validate_suppression_ratio
  validate_retry_suppression_policy cfg =
      if not cfg.enabled
      then ok tt
      else (validate_suppression_ratio cfg.suppress_lane_above_ratio "SuppressLaneAboveRatio"
          >> validate_suppression_ratio cfg.suppress_shard_above_ratio "SuppressShardAboveRatio")

  -- RetrySuppressionPolicy{}
  abbrev pub zero_suppression : RetrySuppressionPolicy W
  zero_suppression = record {
    enabled = false;
    suppress_when_overloaded = false;
    suppress_non_critical_when_pressured = false;
    suppress_lane_above_ratio = ratio 0 1;
    suppress_shard_above_ratio = ratio 0 1;
    suppress_overload_failures = false;
    suppress_admission_failures = false;
    suppress_per_key_admission_failures = false;
    suppress_hot_key_retry = false;
    allow_critical_hot_key_retry = false;
    suppress_when_scale_out_recommended = false;
    hook = none;
  }

  unfoldable pub resolve_retry_suppression_policy :
      RetrySuppressionPolicy W → Option (RetrySuppressionPolicy W) → RetrySuppressionPolicy W
  unfolding normalize_retry_suppression_policy
  resolve_retry_suppression_policy queue override =
      let own : RetrySuppressionPolicy W =
        if queue.enabled then normalize_retry_suppression_policy queue else zero_suppression in
      elim override [
        | none ↦ own
        | some p ↦ if p.enabled then normalize_retry_suppression_policy p else own
      ]
