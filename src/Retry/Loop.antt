-- ===== src/Retry/Loop.antt =====
-- runWithRetry of retry_policy.go. The body of its loop is cut where it may return; the rounds are
-- the attempts from 1 to MaxAttempts.
use go_keylane.Base.{
  ℕ, zero, suc, ◌+◌, ◌-◌, true, false, Option, none, [], ◌∷◌, ◌++◌, if◌then◌else◌,
}
use go_keylane.Base.Ints.{to_nat}
use go_keylane.Base.Floats.{Float}
use go_keylane.Deadline.{DeadlineBudget, with_runtime_at}
use go_keylane.Failure.Defs.{FailureKind, ErrorValue, nil, is_nil, Failure, kind_eq}
use go_keylane.Failure.Classify.{FailurePolicy, classify_failure_with_policy}
use go_keylane.Retry.Policy.{RetryPolicy, normalize_retry_policy}
use go_keylane.Retry.Safety.{RetrySafetyDecisionReason}
use go_keylane.Retry.Decide.{RetryEventKind}
use go_keylane.Retry.Trace.{RunWithRetryOpts, zero_failure, zero_final}
use go_keylane.Retry.Turns.{
  Surroundings, RunResult, LoopState, Turn, finished, again, retry_obs_meta, budget_at, zero_budget,
}
use go_keylane.Retry.Steps.{stop_on_context, after_failure}

module _ {ℓ κ} {A : Type ℓ} {W : Type κ} ⦃f : Float W⦄ where
  -- From the handler's return on; the budget has the new runtime.
  unfoldable pub after_run :
      FailurePolicy
      → RetryPolicy W
      → RunWithRetryOpts W
      → Surroundings A W
      → ℕ
      → LoopState W
      → Option A × ErrorValue
      → Turn A W
  unfolding after_failure is_nil retry_obs_meta
  after_run failures policy opts env n s (val, e) =
      let failure : Failure = classify_failure_with_policy failures e in
      if is_nil e
      then finished (record {
        val = val;
        err = nil;
        budget = s.budget;
        before_handler = false;
        retry_attempts = s.attempts;
        retry_final = record zero_final { succeeded = true };
        retry_tracked = true;
        events =
            s.events ++ retry_obs_meta n zero_failure s.budget RetryEventKind.succeeded_event ∷ [];
      })
      else if kind_eq failure.kind FailureKind.no_failure
      then finished (record {
        val = val;
        err = e;
        budget = s.budget;
        before_handler = false;
        retry_attempts = s.attempts;
        retry_final = zero_final;
        retry_tracked = true;
        events = s.events;
      })
      else after_failure policy opts env n (record s { last_err = e }) failure

  -- The body of the loop.
  unfoldable pub turn :
      FailurePolicy
      → RetryPolicy W
      → RunWithRetryOpts W
      → DeadlineBudget
      → Surroundings A W
      → ℕ
      → LoopState W
      → Turn A W
  unfolding after_run budget_at stop_on_context is_nil
  turn failures policy opts start env n s =
      let now : ℕ = env.started n in
      let budget : DeadlineBudget = budget_at start s.budget now in
      let here : LoopState W = record s { budget = budget } in
      let used : DeadlineBudget =
        with_runtime_at budget (budget.runtime + (env.ended n - now)) (env.stamped n) in
      let ran : LoopState W = record s {
        budget = used;
        events =
            s.events ++ retry_obs_meta n zero_failure budget RetryEventKind.attempt_started ∷ [];
      } in
      if is_nil (env.ctx_before n)
      then after_run failures policy opts env n ran (env.run n budget)
      else stop_on_context n here (env.ctx_before n) (env.wall_before n)
          RetrySafetyDecisionReason.no_reason

  -- The return after the loop.
  unfoldable pub ran_out : LoopState W → RunResult A W
  ran_out s = record {
    val = none;
    err = s.last_err;
    budget = zero_budget;
    before_handler = false;
    retry_attempts = s.attempts;
    retry_final = zero_final;
    retry_tracked = true;
    events = s.events;
  }

  unfoldable pub retry_loop :
      FailurePolicy
      → RetryPolicy W
      → RunWithRetryOpts W
      → DeadlineBudget
      → Surroundings A W
      → ℕ
      → ℕ
      → LoopState W
      → RunResult A W
  unfolding turn ran_out
  retry_loop failures policy opts start env zero n s = ran_out s
  retry_loop failures policy opts start env (suc rounds) n s =
      elim (turn failures policy opts start env n s) [
        | finished r ↦ r
        | again t ↦ retry_loop failures policy opts start env rounds (n + 1) t
      ]

  unfoldable pub run_with_retry :
      FailurePolicy
      → RetryPolicy W
      → RunWithRetryOpts W
      → DeadlineBudget
      → Surroundings A W
      → RunResult A W
  unfolding retry_loop normalize_retry_policy
  run_with_retry failures policy₀ opts start env =
      let policy : RetryPolicy W = normalize_retry_policy policy₀ in
      retry_loop failures policy opts start env (to_nat policy.max_attempts) 1
        (record { budget = start; attempts = []; last_err = nil; events = [] })
