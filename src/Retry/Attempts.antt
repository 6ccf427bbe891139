-- ===== src/Retry/Attempts.antt =====
-- How often runWithRetry of retry_policy.go runs the handler, and that its loop always returns from
-- within.
use go_keylane.Base.{
  ℕ, zero, suc, ◌≤◌, ◌≡◌, refl, sym, ◌∙◌, Bool, true, false, Option, ◌⊎◌, ltb, arith,
}
use go_keylane.Base.Ints.{ℤ, pos, negsuc, to_nat}
use go_keylane.Base.Floats.{Float}
use go_keylane.Deadline.{DeadlineBudget}
use go_keylane.Failure.Defs.{is_nil}
use go_keylane.Failure.Classify.{FailurePolicy, classify_failure_with_policy}
use go_keylane.Retry.Policy.{RetryPolicy, normalize_retry_policy, with_defaults, or_default}
use go_keylane.Retry.Safety.{
  RetrySafetyDecision, Idempotency, decide_retry_safety, unsafe, unspecified,
}
use go_keylane.Retry.Decide.{is_retryable_failure}
use go_keylane.Retry.Trace.{RunWithRetryOpts}
use go_keylane.Retry.Turns.{Surroundings, initial_state}
use go_keylane.Retry.Checks.{hook_answer, safety_of}
use go_keylane.Retry.Loop.{run_with_retry}
use go_keylane.Retry.Turned.{starts}
use go_keylane.Retry.Bounds.{MayRetry, loop-Settled, loop_once}

positive_or_default : (x : ℤ) (d : ℕ) → (m : ℕ) × (or_default x (pos (suc d)) ≡ pos (suc m))
positive_or_default (pos zero) d = (d, refl)
positive_or_default (pos (suc m)) d = let c : ltb 0 (suc m) ≡ true = ground arith in (m, rw c refl)
positive_or_default (negsuc m) d = (d, refl)

normal_attempts {κ} :
    {W : Type κ} ⦃f : Float W⦄ (policy : RetryPolicy W)
    → policy.enabled ≡ true
    → (m : ℕ) × ((normalize_retry_policy policy).max_attempts ≡ pos (suc m))
unfolding normalize_retry_policy with_defaults
normal_attempts policy e = let (m, q) = positive_or_default policy.max_attempts 2 in (m, rw e q)

normal_enabled {κ} :
    {W : Type κ} ⦃f : Float W⦄ (policy : RetryPolicy W)
    → policy.enabled ≡ true
    → (normalize_retry_policy policy).enabled ≡ true
unfolding normalize_retry_policy with_defaults
normal_enabled policy e = rw e refl

abbrev pub NotSafe : Idempotency → Type 0
NotSafe idem =
    (idem.safety ≡ unspecified) ⊎ ((idem.safety ≡ unsafe) × (idem.allow_unsafe_retry ≡ false))

not_safe :
    (idem : Idempotency) (required : Bool) (hook : Option (Option RetrySafetyDecision))
    → NotSafe idem
    → (decide_retry_safety true idem required hook).allow ≡ false
unfolding decide_retry_safety
not_safe idem required hook marked = ground arith

module _ {ℓ κ} {A : Type ℓ} {W : Type κ} ⦃f : Float W⦄ where
  -- A run of an enabled policy starts the handler at most MaxAttempts times, with MaxAttempts as
  -- NormalizeRetryPolicy leaves it, and it returns no error just where it records success.
  pub run_with_retry-settles :
      (failures : FailurePolicy) (policy : RetryPolicy W) (opts : RunWithRetryOpts W)
      → (start : DeadlineBudget) (env : Surroundings A W) → policy.enabled ≡ true
      → let r = run_with_retry failures policy opts start env in
        (starts r.events ≤ to_nat (normalize_retry_policy policy).max_attempts)
        × (is_nil r.err ≡ r.retry_final.succeeded)
  unfolding run_with_retry starts
  run_with_retry-settles failures policy opts start env e =
      let (m, q) = normal_attempts policy e in
      rw q (
        loop-Settled failures (normalize_retry_policy policy) opts start env m 1 (suc m)
          (initial_state start) (λ l h. rw q (ground arith)) (omega arith))

  run_once :
      (failures : FailurePolicy) (policy : RetryPolicy W) (opts : RunWithRetryOpts W)
      → (start : DeadlineBudget) (env : Surroundings A W) → policy.enabled ≡ true
      → (MayRetry failures (normalize_retry_policy policy) opts start env 1 → false ≡ true)
      → starts (run_with_retry failures policy opts start env).events ≤ 1
  unfolding run_with_retry starts
  run_once failures policy opts start env e never =
      let (m, q) = normal_attempts policy e in
      rw q
        (loop_once failures (normalize_retry_policy policy) opts start env m (initial_state start)
          refl never).0

  -- The handler of a job that is marked unsafe without the explicit override, or is not marked at all,
  -- is started at most once, whatever fails.
  pub unsafe_once :
      (failures : FailurePolicy) (policy : RetryPolicy W) (opts : RunWithRetryOpts W)
      → (start : DeadlineBudget) (env : Surroundings A W) → policy.enabled ≡ true
      → NotSafe opts.idempotency
      → starts (run_with_retry failures policy opts start env).events ≤ 1
  unfolding safety_of
  unsafe_once failures policy opts start env e marked =
      run_once failures policy opts start env e (λ may.
        let refused : (safety_of (normalize_retry_policy policy) opts 1).allow ≡ false =
          rw (normal_enabled policy e)
            (not_safe opts.idempotency opts.require_for_retry (hook_answer opts 1) marked) in
        sym refused ∙ may.1)

  -- The handler is started at most once where no failure that it can return at first is retryable.
  pub permanent_once :
      (failures : FailurePolicy) (policy : RetryPolicy W) (opts : RunWithRetryOpts W)
      → (start : DeadlineBudget) (env : Surroundings A W) → policy.enabled ≡ true
      → ((b : DeadlineBudget)
          → is_retryable_failure
              (normalize_retry_policy policy)
              (classify_failure_with_policy failures (env.run 1 b).1)
            ≡ false)
      → starts (run_with_retry failures policy opts start env).events ≤ 1
  permanent_once failures policy opts start env e permanent =
      run_once failures policy opts start env e (λ may. sym (permanent may.2.0) ∙ may.2.1)
