-- ===== src/Retry/Pipeline.antt =====
-- evaluatePipelineRetry of retry_policy.go: the decision on a failed attempt of a pipeline that
-- waits for a continuation.
use go_keylane.Base.{ℕ, Bool, true, false, not, some, List, [], ◌∷◌, ◌++◌, if◌then◌else◌}
use go_keylane.Base.Ints.{ℤ, pos, int_leb}
use go_keylane.Base.Floats.{Float}
use go_keylane.Deadline.{DeadlineBudget}
use go_keylane.Failure.Defs.{ErrorValue, Failure}
use go_keylane.Failure.Classify.{FailurePolicy, classify_completion_failure}
use go_keylane.Retry.Policy.{RetryPolicy, normalize_retry_policy}
use go_keylane.Retry.Safety.{RetrySafetyDecisionReason, RetrySafetyDecision}
use go_keylane.Retry.Suppression.{
  RetrySuppressionReason, RetrySuppressionSnapshot, RetrySuppressionDecision,
}
use go_keylane.Retry.Decide.{
  RetryDecision, RetryState, RetryDecisionReason, RetryFinalState, RetryEventKind, decide_retry,
  final_state_from_failure, retry_terminal_exhausted,
}
use go_keylane.Retry.Trace.{RetryAttempt, RetryObsRecord, RunWithRetryOpts, zero_final}
use go_keylane.Retry.Turns.{retry_obs_meta, scheduled_record, observe_retry_terminal_stop}
use go_keylane.Retry.Checks.{snapshot_of, suppression_of, note_suppression, new_attempt, safety_of}

-- The evaluation, with the attempts as they stand after the call and the observer's records.
pub record PipelineRetryEvaluation {κ} (W : Type κ) : Type κ where
  pub schedule_retry : Bool
  pub delay : ℤ
  pub failure : Failure
  pub terminal_final : RetryFinalState
  pub attempts : List (RetryAttempt W)
  pub events : List RetryObsRecord

-- The failed attempt: its number, the handler's error, the budget, the context's error, clock.Now()
-- and time.Now(), and the jitter.
pub record FailedAttempt {κ} (W : Type κ) : Type κ where
  pub attempt : ℕ
  pub handler_err : ErrorValue
  pub budget : DeadlineBudget
  pub ctx_err : ErrorValue
  pub now : ℕ
  pub wall : ℕ
  pub sample : W

module _ {κ} {W : Type κ} ⦃f : Float W⦄ where
  abbrev end_with :
      Failure
      → RetryFinalState
      → List (RetryAttempt W)
      → List RetryObsRecord
      → PipelineRetryEvaluation W
  end_with failure final attempts events = record {
    schedule_retry = false;
    delay = pos 0;
    failure = failure;
    terminal_final = final;
    attempts = attempts;
    events = events;
  }

  abbrev pub go_with :
      Failure → ℤ → List (RetryAttempt W) → List RetryObsRecord → PipelineRetryEvaluation W
  go_with failure delay attempts events = record {
    schedule_retry = true;
    delay = delay;
    failure = failure;
    terminal_final = zero_final;
    attempts = attempts;
    events = events;
  }

  -- From the suppression check on.
  unfoldable pub schedule :
      RetryPolicy W
      → RunWithRetryOpts W
      → FailedAttempt W
      → Failure
      → RetryDecision
      → RetrySafetyDecisionReason
      → List (RetryAttempt W)
      → List RetryObsRecord
      → PipelineRetryEvaluation W
  unfolding suppression_of snapshot_of note_suppression retry_obs_meta scheduled_record
  schedule policy opts a failure decision safety attempts events =
      let snap : RetrySuppressionSnapshot W = snapshot_of opts a.attempt in
      let suppress : RetrySuppressionDecision =
        suppression_of policy opts a.attempt failure a.budget in
      let noted : List (RetryAttempt W) = note_suppression snap suppress attempts in
      let refused : RetryObsRecord =
        record (retry_obs_meta a.attempt failure a.budget RetryEventKind.suppressed) {
          retry_reason = decision.reason;
          safety_reason = safety;
          suppression_reason = suppress.reason;
          delay = some decision.delay;
        } in
      let told : RetryObsRecord = scheduled_record a.attempt failure a.budget decision safety in
      if suppress.suppress
      then end_with failure
          (final_state_from_failure failure false decision.reason safety suppress.reason) noted
          (events ++ refused ∷ [])
      else go_with failure decision.delay noted (events ++ told ∷ [])

  -- From the safety check on.
  unfoldable pub check_safety :
      RetryPolicy W
      → RunWithRetryOpts W
      → FailedAttempt W
      → Failure
      → RetryDecision
      → List (RetryAttempt W)
      → List RetryObsRecord
      → PipelineRetryEvaluation W
  unfolding schedule safety_of new_attempt retry_obs_meta
  check_safety policy opts a failure decision attempts events =
      let safety : RetrySafetyDecision = safety_of policy opts a.attempt in
      let added : List (RetryAttempt W) =
        attempts ++ new_attempt opts a.attempt failure decision safety.reason ∷ [] in
      let refused : RetryObsRecord =
        record (retry_obs_meta a.attempt failure a.budget RetryEventKind.safety_suppressed) {
          retry_reason = decision.reason;
          safety_reason = safety.reason;
        } in
      if safety.allow
      then schedule policy opts a failure decision safety.reason added events
      else end_with failure
          (final_state_from_failure failure false decision.reason safety.reason
            RetrySuppressionReason.no_reason)
          added (events ++ refused ∷ [])

  -- From the decision on.
  unfoldable pub by_decision :
      RetryPolicy W
      → RunWithRetryOpts W
      → FailedAttempt W
      → Failure
      → RetryDecision
      → List (RetryAttempt W)
      → PipelineRetryEvaluation W
  unfolding check_safety retry_obs_meta observe_retry_terminal_stop final_state_from_failure
      retry_terminal_exhausted
  by_decision policy opts a failure decision attempts =
      let rec : RetryObsRecord =
        retry_obs_meta a.attempt failure a.budget RetryEventKind.failure_classified in
      if decision.retry
      then check_safety policy opts a failure decision attempts (rec ∷ [])
      else end_with failure
          (final_state_from_failure failure (retry_terminal_exhausted decision.reason)
            decision.reason RetrySafetyDecisionReason.no_reason RetrySuppressionReason.no_reason)
          attempts (rec ∷ observe_retry_terminal_stop rec decision.reason)

  abbrev pub failed_state : FailedAttempt W → Failure → RetryState
  failed_state a failure = record {
    ctx_err = a.ctx_err;
    attempt = a.attempt;
    failure = failure;
    budget = a.budget;
    now = some a.now;
  }

  -- The return where no attempt is left.
  unfoldable pub at_last :
      FailedAttempt W → Failure → List (RetryAttempt W) → PipelineRetryEvaluation W
  unfolding retry_obs_meta observe_retry_terminal_stop final_state_from_failure
  at_last a failure attempts =
      end_with failure
        (final_state_from_failure failure true RetryDecisionReason.max_attempts
          RetrySafetyDecisionReason.no_reason RetrySuppressionReason.no_reason)
        attempts
        (observe_retry_terminal_stop
          (retry_obs_meta a.attempt failure a.budget RetryEventKind.failure_classified)
          RetryDecisionReason.max_attempts)

  -- The checks on the policy, for a failure that is classified.
  unfoldable pub evaluate_failure :
      RetryPolicy W
      → RunWithRetryOpts W
      → FailedAttempt W
      → Failure
      → List (RetryAttempt W)
      → PipelineRetryEvaluation W
  unfolding by_decision at_last final_state_from_failure
  evaluate_failure policy opts a failure attempts =
      if not policy.enabled
      then end_with failure
          (final_state_from_failure failure false RetryDecisionReason.disabled
            RetrySafetyDecisionReason.no_reason RetrySuppressionReason.no_reason)
          attempts []
      else if int_leb policy.max_attempts (pos a.attempt)
      then at_last a failure attempts
      else by_decision policy opts a failure
          (decide_retry policy (failed_state a failure) a.wall a.sample) attempts

  unfoldable pub evaluate_pipeline_retry :
      FailurePolicy
      → RetryPolicy W
      → RunWithRetryOpts W
      → FailedAttempt W
      → List (RetryAttempt W)
      → PipelineRetryEvaluation W
  unfolding evaluate_failure normalize_retry_policy
  evaluate_pipeline_retry failures policy opts a attempts =
      evaluate_failure (normalize_retry_policy policy) opts a
        (classify_completion_failure a.handler_err failures a.budget false a.wall) attempts
