-- ===== src/Retry/Checks.antt =====
-- What runWithRetry and evaluatePipelineRetry of retry_policy.go both do: the arguments of the checks on
-- the safety and the health of a retry, and what is recorded of an attempt.
use go_keylane.Base.{Option, ℕ, false, none, some, List}
use go_keylane.Base.Floats.{Float}
use go_keylane.Deadline.{DeadlineBudget}
use go_keylane.Failure.Defs.{Failure}
use go_keylane.Retry.Policy.{RetryPolicy}
use go_keylane.Retry.Safety.{RetrySafetyDecisionReason, RetrySafetyDecision, decide_retry_safety}
use go_keylane.Retry.Suppression.{
  LaneClass, RetrySuppressionReason, RetrySuppressionSnapshot, RetrySuppressionDecision,
}
use go_keylane.Retry.Suppressing.{decide_retry_suppression}
use go_keylane.Retry.Decide.{RetryDecision}
use go_keylane.Retry.Trace.{RetryAttempt, RunWithRetryOpts, change_last}

module _ {κ} {W : Type κ} ⦃f : Float W⦄ where
  open f use {ratio}

  -- RetrySuppressionSnapshot{}
  abbrev pub zero_snapshot : RetrySuppressionSnapshot W
  zero_snapshot = record {
    pressure = record {
      total_depth = 0;
      total_capacity = 0;
      total_in_flight = 0;
      total_depth_ratio = ratio 0 1;
      is_healthy = false;
      is_pressured = false;
      is_overloaded = false;
    };
    lane_depth_ratio = ratio 0 1;
    shard_depth_ratio = ratio 0 1;
    recommended = false;
    lane_class = LaneClass.other_class "";
    hot_key_candidate = false;
  }

  -- The pressure that the suppression check is given, and what it decides.
  unfoldable pub snapshot_of : RunWithRetryOpts W → ℕ → RetrySuppressionSnapshot W
  snapshot_of opts n = elim opts.snapshot [ some g ↦ g n | none ↦ zero_snapshot ]

  unfoldable pub suppression_of :
      RetryPolicy W → RunWithRetryOpts W → ℕ → Failure → DeadlineBudget → RetrySuppressionDecision
  unfolding snapshot_of
  suppression_of policy opts n failure budget =
      decide_retry_suppression opts.suppression_policy (record {
        key = opts.key;
        lane = opts.lane;
        shard_id = opts.shard_id;
        attempt = n;
        failure = failure;
        retry = policy;
        budget = budget;
        snapshot = snapshot_of opts n;
        idempotency = opts.idempotency;
      })

  -- What is written to the last attempt after the suppression check.
  unfoldable pub note_suppression :
      RetrySuppressionSnapshot W
      → RetrySuppressionDecision
      → List (RetryAttempt W)
      → List (RetryAttempt W)
  unfolding change_last
  note_suppression snap suppress = change_last λ a. record a {
    suppressed = suppress.suppress;
    suppression_reason = suppress.reason;
    pressure_ratio = snap.pressure.total_depth_ratio;
    lane_depth_ratio_snap = snap.lane_depth_ratio;
    shard_depth_ratio_snap = snap.shard_depth_ratio;
  }

  -- The record of the attempt that is appended before the safety is looked at.
  unfoldable pub new_attempt :
      RunWithRetryOpts W → ℕ → Failure → RetryDecision → RetrySafetyDecisionReason → RetryAttempt W
  new_attempt opts n failure decision safety = record {
    lane = opts.lane;
    key = opts.key;
    shard_id = opts.shard_id;
    attempt = n;
    delay = decision.delay;
    failure = failure;
    reason = decision.reason;
    idempotency_key = opts.idempotency.key;
    idempotency_scope = opts.idempotency.scope;
    idempotency_operation = opts.idempotency.operation;
    retry_safety = opts.idempotency.safety;
    safety_reason = safety;
    suppressed = false;
    suppression_reason = RetrySuppressionReason.no_reason;
    pressure_ratio = ratio 0 1;
    lane_depth_ratio_snap = ratio 0 1;
    shard_depth_ratio_snap = ratio 0 1;
  }

  abbrev pub hook_answer : RunWithRetryOpts W → ℕ → Option (Option RetrySafetyDecision)
  hook_answer opts n = elim opts.safety_hook [ none ↦ none | some g ↦ some (g n) ]

  unfoldable pub safety_of : RetryPolicy W → RunWithRetryOpts W → ℕ → RetrySafetyDecision
  unfolding decide_retry_safety
  safety_of policy opts n =
      decide_retry_safety policy.enabled opts.idempotency opts.require_for_retry
        (hook_answer opts n)
