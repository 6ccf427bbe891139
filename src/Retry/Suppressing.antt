-- ===== src/Retry/Suppressing.antt =====
-- The health checks before a retry: DecideRetrySuppression of retry_suppression.go.
use go_keylane.Base.{
  ℕ, Bool, true, false, not, ◌&&◌, ◌||◌, String, Option, none, some, List, [], ◌∷◌, ◌++◌, ltb,
  if◌then◌else◌,
}
use go_keylane.Base.Floats.{Float}
use go_keylane.Failure.Defs.{
  FailureKind, Sentinel, Failure, is, is_nil, has_admission_error, has_per_key_error, kind_eq,
}
use go_keylane.Retry.Suppression.{
  LaneClass, critical, background, best_effort, RetrySuppressionReason, no_reason, not_suppressed,
  disabled, global_pressure, global_overload, lane_pressure, shard_pressure, overload_failure,
  admission_failure, per_key_admission, hot_key, scale_out_recommended, hook_rejected, hook_failed,
  RetrySuppressionSnapshot, RetrySuppressionCheck, RetrySuppressionDecision, RetrySuppressionPolicy,
}

unfoldable pub is_non_critical_lane_class : LaneClass → Bool
is_non_critical_lane_class background = true
is_non_critical_lane_class best_effort = true
is_non_critical_lane_class _ = false

abbrev is_critical : LaneClass → Bool
is_critical critical = true
is_critical _ = false

unfoldable pub is_per_key_admission_failure : Failure → Bool
is_per_key_admission_failure f =
    if is_nil f.err
    then false
    else is f.err Sentinel.per_key_rejected
      || is f.err Sentinel.per_key_throttled
      || is f.err Sentinel.per_key_shed
      || has_per_key_error f.err

unfoldable pub is_general_admission_failure : Failure → Bool
unfolding is_per_key_admission_failure
is_general_admission_failure f =
    if not (kind_eq f.kind FailureKind.rejected) || is_nil f.err || is_per_key_admission_failure f
    then false
    else is f.err Sentinel.admission_rejected || has_admission_error f.err

unfoldable pub suppress_decision : RetrySuppressionReason → String → RetrySuppressionDecision
suppress_decision reason message = record { suppress = true; reason = reason; message = message }

abbrev pass : RetrySuppressionReason → String → RetrySuppressionDecision
pass reason message = record { suppress = false; reason = reason; message = message }

-- Tests that return a decision each, in their order.
unfoldable pub first : List (Bool × RetrySuppressionDecision) → Option RetrySuppressionDecision
first [] = none
first ((test, d) ∷ rest) = if test then some d else first rest

-- The end of DecideRetrySuppression: what the hook answers.
unfoldable pub after_hook : RetrySuppressionDecision → RetrySuppressionDecision
unfolding suppress_decision
after_hook d =
    if d.suppress
    then suppress_decision (elim d.reason [ no_reason ↦ hook_rejected | r ↦ r ]) d.message
    else pass (elim d.reason [ no_reason ↦ not_suppressed | r ↦ r ]) d.message

module _ {ℓ} {W : Type ℓ} ⦃f : Float W⦄ where
  open f use {ratio, lt, le}

  -- The tests on the failure.
  unfoldable pub by_failure :
      RetrySuppressionPolicy W → Failure → List (Bool × RetrySuppressionDecision)
  unfolding suppress_decision is_general_admission_failure is_per_key_admission_failure
  by_failure policy failure =
      (
        policy.suppress_overload_failures && kind_eq failure.kind FailureKind.overloaded,
        suppress_decision overload_failure "overload failure",
      )
      ∷ (
        policy.suppress_admission_failures && is_general_admission_failure failure,
        suppress_decision admission_failure "admission failure",
      )
      ∷ (
        policy.suppress_per_key_admission_failures && is_per_key_admission_failure failure,
        suppress_decision per_key_admission "per-key admission failure",
      )
      ∷ []

  -- The tests on the queue's pressure and the depth of the lane and the shard.
  unfoldable pub by_pressure :
      RetrySuppressionPolicy W → RetrySuppressionSnapshot W → List (Bool × RetrySuppressionDecision)
  unfolding suppress_decision is_non_critical_lane_class
  by_pressure policy snap =
      (
        policy.suppress_when_overloaded && snap.pressure.is_overloaded,
        suppress_decision global_overload "global queue overloaded",
      )
      ∷ (
        policy.suppress_non_critical_when_pressured
            && snap.pressure.is_pressured
            && is_non_critical_lane_class snap.lane_class,
        suppress_decision global_pressure "global queue pressured for non-critical lane",
      )
      ∷ (
        lt (ratio 0 1) policy.suppress_lane_above_ratio
            && le policy.suppress_lane_above_ratio snap.lane_depth_ratio,
        suppress_decision lane_pressure "lane depth above threshold",
      )
      ∷ (
        lt (ratio 0 1) policy.suppress_shard_above_ratio
            && le policy.suppress_shard_above_ratio snap.shard_depth_ratio,
        suppress_decision shard_pressure "shard depth above threshold",
      )
      ∷ []

  -- The tests on a hot key and on the scale signal.
  unfoldable pub by_hot_key :
      RetrySuppressionPolicy W
      → RetrySuppressionSnapshot W
      → ℕ
      → List (Bool × RetrySuppressionDecision)
  unfolding suppress_decision is_non_critical_lane_class
  by_hot_key policy snap attempt =
      let hot : Bool = policy.suppress_hot_key_retry && snap.hot_key_candidate in
      let low : Bool = is_non_critical_lane_class snap.lane_class in
      (hot && low, suppress_decision hot_key "hot key on non-critical lane")
      ∷ (
        hot && is_critical snap.lane_class && not policy.allow_critical_hot_key_retry,
        suppress_decision hot_key "hot key on critical lane without explicit permission",
      )
      ∷ (
        hot && is_critical snap.lane_class && ltb 1 attempt,
        suppress_decision hot_key "hot key retry budget exhausted for critical lane",
      )
      ∷ (
        policy.suppress_when_scale_out_recommended && snap.recommended && low,
        suppress_decision scale_out_recommended "scale-out recommended for non-critical lane",
      )
      ∷ []

  unfoldable pub by_hook :
      RetrySuppressionPolicy W → RetrySuppressionCheck W → RetrySuppressionDecision
  unfolding suppress_decision after_hook
  by_hook policy check = elim policy.hook [
    | none ↦ pass not_suppressed ""
    | some hook ↦ elim (hook check) [
      | none ↦ suppress_decision hook_failed "retry suppression hook failed"
      | some d ↦ after_hook d
    ]
  ]

  unfoldable pub decide_retry_suppression :
      RetrySuppressionPolicy W → RetrySuppressionCheck W → RetrySuppressionDecision
  unfolding by_failure by_pressure by_hot_key by_hook first
  decide_retry_suppression policy check =
      if not policy.enabled
      then pass disabled ""
      else elim (first (
          by_failure policy check.failure
          ++ by_pressure policy check.snapshot
          ++ by_hot_key policy check.snapshot check.attempt)) [
            | some d ↦ d
            | none ↦ by_hook policy check
          ]
