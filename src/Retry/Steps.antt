-- ===== src/Retry/Steps.antt =====
-- runWithRetry of retry_policy.go: what a turn of its loop does after a failure, cut where it may
-- return.
use go_keylane.Base.{ℕ, Bool, true, false, none, some, List, [], ◌∷◌, ◌++◌, if◌then◌else◌}
use go_keylane.Base.Floats.{Float}
use go_keylane.Deadline.{DeadlineBudget}
use go_keylane.Failure.Defs.{ErrorValue, is_nil, Failure}
use go_keylane.Failure.Classify.{classify_context_error_at}
use go_keylane.Retry.Policy.{RetryPolicy}
use go_keylane.Retry.Safety.{RetrySafetyDecisionReason, RetrySafetyDecision}
use go_keylane.Retry.Suppression.{
  RetrySuppressionReason, RetrySuppressionSnapshot, RetrySuppressionDecision,
}
use go_keylane.Retry.Decide.{
  RetryDecision, RetryState, RetryDecisionReason, RetryFinalState, RetryEventKind, decide_retry,
  final_state_from_failure, retry_terminal_exhausted,
}
use go_keylane.Retry.Trace.{RetryObsRecord, RunWithRetryOpts, change_last}
use go_keylane.Retry.Turns.{
  Surroundings, LoopState, Turn, finished, again, retry_handler_error, retry_obs_meta, report,
  scheduled_record, observe_retry_terminal_stop,
}
use go_keylane.Retry.Checks.{snapshot_of, suppression_of, note_suppression, new_attempt, safety_of}

module _ {ℓ κ} {A : Type ℓ} {W : Type κ} ⦃f : Float W⦄ where
  -- A return from the loop on a failure.
  abbrev stop : LoopState W → ErrorValue → Bool → RetryFinalState → List RetryObsRecord → Turn A W
  stop s e before final more = finished (record {
    val = none;
    err = e;
    budget = s.budget;
    before_handler = before;
    retry_attempts = s.attempts;
    retry_final = final;
    retry_tracked = true;
    events = s.events ++ more;
  })

  -- What is reported and returned where the context has ended, before the handler or in the sleep.
  unfoldable pub stop_on_context :
      ℕ → LoopState W → ErrorValue → ℕ → RetrySafetyDecisionReason → Turn A W
  unfolding retry_obs_meta observe_retry_terminal_stop final_state_from_failure
  stop_on_context n s e wall safety =
      let failure : Failure = classify_context_error_at e s.budget true wall in
      let rec : RetryObsRecord =
        retry_obs_meta n failure s.budget RetryEventKind.failure_classified in
      stop s e true
        (final_state_from_failure failure false RetryDecisionReason.context_cancelled safety
          RetrySuppressionReason.no_reason)
        (rec ∷ observe_retry_terminal_stop rec RetryDecisionReason.context_cancelled)

  -- From the report that a retry is scheduled on: the sleep.
  unfoldable pub after_suppression :
      RunWithRetryOpts W
      → Surroundings A W
      → ℕ
      → LoopState W
      → Failure
      → RetryDecision
      → RetrySafetyDecisionReason
      → Turn A W
  unfolding scheduled_record stop_on_context is_nil
  after_suppression opts env n s failure decision safety =
      let told : LoopState W = report s (scheduled_record n failure s.budget decision safety) in
      let slept : ErrorValue = env.sleep n decision.delay in
      if is_nil slept then again told else stop_on_context n told slept (env.wall_after n) safety

  -- The pressure that the check reads, and what it writes to the last attempt.
  unfoldable pub after_safety :
      RetryPolicy W
      → RunWithRetryOpts W
      → Surroundings A W
      → ℕ
      → LoopState W
      → Failure
      → RetryDecision
      → RetrySafetyDecisionReason
      → Turn A W
  unfolding after_suppression snapshot_of suppression_of note_suppression retry_obs_meta
      retry_handler_error
  after_safety policy opts env n s failure decision safety =
      let snap : RetrySuppressionSnapshot W = snapshot_of opts n in
      let suppress : RetrySuppressionDecision = suppression_of policy opts n failure s.budget in
      let noted : LoopState W = record s {
        attempts =
            change_last
              (λ a. record a {
                suppressed = suppress.suppress;
                suppression_reason = suppress.reason;
                pressure_ratio = snap.pressure.total_depth_ratio;
                lane_depth_ratio_snap = snap.lane_depth_ratio;
                shard_depth_ratio_snap = snap.shard_depth_ratio;
              })
              s.attempts;
      } in
      let rec : RetryObsRecord =
        record (retry_obs_meta n failure s.budget RetryEventKind.suppressed) {
          retry_reason = decision.reason;
          safety_reason = safety;
          suppression_reason = suppress.reason;
          delay = some decision.delay;
        } in
      if suppress.suppress
      then stop noted (retry_handler_error s.last_err failure) false
          (final_state_from_failure failure false decision.reason safety suppress.reason) (rec ∷ [])
      else after_suppression opts env n noted failure decision safety

  unfoldable pub after_decision :
      RetryPolicy W
      → RunWithRetryOpts W
      → Surroundings A W
      → ℕ
      → LoopState W
      → Failure
      → RetryDecision
      → Turn A W
  unfolding new_attempt after_safety safety_of retry_handler_error
  after_decision policy opts env n s failure decision =
      let safety : RetrySafetyDecision = safety_of policy opts n in
      let noted : LoopState W = record s {
        attempts = s.attempts ++ new_attempt opts n failure decision safety.reason ∷ [];
      } in
      let rec : RetryObsRecord =
        record (retry_obs_meta n failure s.budget RetryEventKind.safety_suppressed) {
          retry_reason = decision.reason;
          safety_reason = safety.reason;
        } in
      if safety.allow
      then after_safety policy opts env n noted failure decision safety.reason
      else stop noted (retry_handler_error s.last_err failure) false
          (final_state_from_failure failure false decision.reason safety.reason
            RetrySuppressionReason.no_reason)
          (rec ∷ [])

  abbrev pub state_after : Surroundings A W → ℕ → DeadlineBudget → Failure → RetryState
  state_after env n budget failure = record {
    ctx_err = env.ctx_after n;
    attempt = n;
    failure = failure;
    budget = budget;
    now = some (env.started n);
  }

  -- From the decision on.
  unfoldable pub after_decide :
      RetryPolicy W
      → RunWithRetryOpts W
      → Surroundings A W
      → ℕ
      → LoopState W
      → Failure
      → RetryDecision
      → Turn A W
  unfolding after_decision retry_handler_error observe_retry_terminal_stop retry_terminal_exhausted
  after_decide policy opts env n s failure decision =
      let rec : RetryObsRecord =
        retry_obs_meta n failure s.budget RetryEventKind.failure_classified in
      let told : LoopState W = report s rec in
      if decision.retry
      then after_decision policy opts env n told failure decision
      else stop told (retry_handler_error s.last_err failure) false
          (final_state_from_failure failure (retry_terminal_exhausted decision.reason)
            decision.reason RetrySafetyDecisionReason.no_reason RetrySuppressionReason.no_reason)
          (observe_retry_terminal_stop rec decision.reason)

  -- From the classification of the handler's error on.
  unfoldable pub after_failure :
      RetryPolicy W → RunWithRetryOpts W → Surroundings A W → ℕ → LoopState W → Failure → Turn A W
  unfolding after_decide
  after_failure policy opts env n s failure =
      after_decide policy opts env n s failure
        (decide_retry policy (state_after env n s.budget failure) (env.wall_after n) (env.sample n))
