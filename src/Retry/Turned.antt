-- ===== src/Retry/Turned.antt =====
-- What every turn of the loop of runWithRetry of retry_policy.go keeps: how often the handler was
-- started, that an error is returned just where no success is recorded, and what a turn that goes on
-- has passed.
use go_keylane.Base.{
  ℕ, suc, ◌+◌, ◌≡◌, refl, Bool, true, false, Option, List, [], ◌∷◌, ◌++◌, arith, if◌then◌else◌,
}
use go_keylane.Base.Ints.{pos, int_leb}
use go_keylane.Base.Floats.{Float}
use go_keylane.Failure.Defs.{FailureKind, ErrorValue, is_nil, Failure, kind_eq, as_error}
use go_keylane.Failure.Classify.{
  FailurePolicy, classify_failure_with_policy, classify_context_error_at,
}
use go_keylane.Retry.Policy.{RetryPolicy}
use go_keylane.Retry.Safety.{RetrySafetyDecisionReason}
use go_keylane.Retry.Suppression.{RetrySuppressionSnapshot, RetrySuppressionDecision}
use go_keylane.Retry.Decide.{
  RetryDecision, RetryDecisionReason, RetryState, RetryEventKind, attempt_started, decide_retry,
  is_retryable_failure, final_state_from_failure, terminal_events,
}
use go_keylane.Retry.Trace.{RetryObsRecord, RunWithRetryOpts}
use go_keylane.Retry.Turns.{
  Surroundings, LoopState, Turn, finished, again, failure_as_error, retry_handler_error,
  retry_obs_meta, observe_retry_terminal_stop, report, scheduled_record,
}
use go_keylane.Retry.Steps.{
  stop_on_context, after_suppression, after_safety, after_decision, after_decide, after_failure,
  state_after,
}
use go_keylane.Retry.Checks.{snapshot_of, suppression_of, note_suppression, safety_of}
use go_keylane.Retry.Loop.{after_run}

abbrev is_start : RetryEventKind → ℕ
is_start attempt_started = 1
is_start _ = 0

-- How often the handler was started.
unfoldable pub starts : List RetryObsRecord → ℕ
starts [] = 0
starts (r ∷ rest) = is_start r.kind + starts rest

starts-++ : (xs ys : List RetryObsRecord) → starts (xs ++ ys) ≡ starts xs + starts ys
unfolding starts
starts-++ [] ys = omega arith
starts-++ (x ∷ xs) ys = omega (arith, starts-++ xs ys)

starts-stop :
    (rec : RetryObsRecord) (reason : RetryDecisionReason)
    → starts (observe_retry_terminal_stop rec reason) ≡ 0
unfolding starts observe_retry_terminal_stop terminal_events
starts-stop rec reason = ground arith

retry_handler_error-nil :
    (e : ErrorValue) (f : Failure)
    → is_nil e ≡ false
    → kind_eq f.kind FailureKind.no_failure ≡ false
    → is_nil (retry_handler_error e f) ≡ false
unfolding is_nil retry_handler_error failure_as_error as_error
retry_handler_error-nil e f c k = ground arith

starts-more :
    (xs ys : List RetryObsRecord) {k : ℕ} → starts xs ≡ k → starts ys ≡ 0 → starts (xs ++ ys) ≡ k
starts-more xs ys p q = omega (arith, starts-++ xs ys)

-- A record of a kind other than the start of an attempt, before what observeRetryTerminalStop reports.
starts-report :
    (xs : List RetryObsRecord) (rec : RetryObsRecord) (reason : RetryDecisionReason) {k : ℕ}
    → starts xs ≡ k
    → is_start rec.kind ≡ 0
    → starts (xs ++ rec ∷ observe_retry_terminal_stop rec reason) ≡ k
unfolding starts
starts-report xs rec reason p q =
    starts-more xs (rec ∷ observe_retry_terminal_stop rec reason) p
      (omega (arith, starts-stop rec reason))

-- What a retry has passed in DecideRetry.
decide_retry-passed {κ} :
    {W : Type κ} ⦃f : Float W⦄ (policy : RetryPolicy W) (s : RetryState) (clock : ℕ) (sample : W)
    → (decide_retry policy s clock sample).retry ≡ true
    → (int_leb policy.max_attempts (pos s.attempt) ≡ false)
      × (is_retryable_failure policy s.failure ≡ true)
unfolding decide_retry
decide_retry-passed policy s clock sample h = ground arith

pub starts_one :
    (xs : List RetryObsRecord) (rec : RetryObsRecord)
    → rec.kind ≡ attempt_started
    → starts (xs ++ rec ∷ []) ≡ suc (starts xs)
unfolding starts
starts_one xs rec e =
    let one : is_start rec.kind ≡ 1 = rw e refl in omega (arith, starts-++ xs (rec ∷ []))

module _ {ℓ κ} (A : Type ℓ) {W : Type κ} ⦃f : Float W⦄ (P : Type 0) (k : ℕ) where
  -- After a turn with `k` starts so far; `P` is what holds where the loop goes on.
  abbrev pub Turned : Turn A W → Type 0
  Turned (finished r) = (starts r.events ≡ k) × (is_nil r.err ≡ r.retry_final.succeeded)
  Turned (again t) = (starts t.events ≡ k) × P

  if-Turned :
      (b : Bool) (x y : Turn A W)
      → (b ≡ true → Turned x)
      → (b ≡ false → Turned y)
      → Turned (if b then x else y)
  if-Turned true x y g h = g refl
  if-Turned false x y g h = h refl

  pub stop_on_context-Turned :
      (n : ℕ) (s : LoopState W) (e : ErrorValue) (wall : ℕ) (safety : RetrySafetyDecisionReason)
      → is_nil e ≡ false
      → starts s.events ≡ k
      → Turned (stop_on_context n s e wall safety)
  unfolding stop_on_context final_state_from_failure retry_obs_meta
  stop_on_context-Turned n s e wall safety c q = (
    starts-report s.events
        (retry_obs_meta n (classify_context_error_at e s.budget true wall) s.budget
          RetryEventKind.failure_classified)
        RetryDecisionReason.context_cancelled q refl,
    c,
  )

  after_suppression-Turned :
      (opts : RunWithRetryOpts W) (env : Surroundings A W) (n : ℕ) (s : LoopState W)
      → (failure : Failure) (d : RetryDecision) (safety : RetrySafetyDecisionReason) → P
      → starts s.events ≡ k
      → Turned (after_suppression opts env n s failure d safety)
  unfolding after_suppression scheduled_record retry_obs_meta starts
  after_suppression-Turned opts env n s failure d safety p q =
      let told : starts (s.events ++ _ ∷ []) ≡ k = starts-more s.events _ q refl in
      if-Turned (is_nil (env.sleep n d.delay)) _ _ (λ e. (told, p))
        (λ e.
          stop_on_context-Turned n (report s (scheduled_record n failure s.budget d safety))
            (env.sleep n d.delay) (env.wall_after n) safety e told)

  after_safety-Turned :
      (policy : RetryPolicy W) (opts : RunWithRetryOpts W) (env : Surroundings A W) (n : ℕ)
      → (s : LoopState W) (failure : Failure) (d : RetryDecision)
      → (safety : RetrySafetyDecisionReason) → P
      → is_nil s.last_err ≡ false
      → kind_eq failure.kind FailureKind.no_failure ≡ false
      → starts s.events ≡ k
      → Turned (after_safety policy opts env n s failure d safety)
  unfolding after_safety retry_obs_meta starts final_state_from_failure
  after_safety-Turned policy opts env n s failure d safety p c z q =
      let snap : RetrySuppressionSnapshot W = snapshot_of opts n in
      let suppress : RetrySuppressionDecision = suppression_of policy opts n failure s.budget in
      let noted : LoopState W = record s { attempts = note_suppression snap suppress s.attempts } in
      if-Turned suppress.suppress _ _
        (λ e. (starts-more s.events _ q refl, retry_handler_error-nil s.last_err failure c z))
        (λ e. after_suppression-Turned opts env n noted failure d safety p q)

  after_decision-Turned :
      (policy : RetryPolicy W) (opts : RunWithRetryOpts W) (env : Surroundings A W) (n : ℕ)
      → (s : LoopState W) (failure : Failure) (d : RetryDecision)
      → ((safety_of policy opts n).allow ≡ true → P)
      → is_nil s.last_err ≡ false
      → kind_eq failure.kind FailureKind.no_failure ≡ false
      → starts s.events ≡ k
      → Turned (after_decision policy opts env n s failure d)
  unfolding after_decision retry_obs_meta starts final_state_from_failure
  after_decision-Turned policy opts env n s failure d p c z q =
      if-Turned (safety_of policy opts n).allow _ _
        (λ e. after_safety-Turned policy opts env n _ failure d _ (p e) c z q)
        (λ e. (starts-more s.events _ q refl, retry_handler_error-nil s.last_err failure c z))

  after_failure-Turned :
      (policy : RetryPolicy W) (opts : RunWithRetryOpts W) (env : Surroundings A W) (n : ℕ)
      → (s : LoopState W) (failure : Failure)
      → (int_leb policy.max_attempts (pos n) ≡ false
          → is_retryable_failure policy failure ≡ true
          → (safety_of policy opts n).allow ≡ true
          → P)
      → is_nil s.last_err ≡ false
      → kind_eq failure.kind FailureKind.no_failure ≡ false
      → starts s.events ≡ k
      → Turned (after_failure policy opts env n s failure)
  unfolding after_failure after_decide retry_obs_meta starts final_state_from_failure
  after_failure-Turned policy opts env n s failure p c z q =
      let rec : RetryObsRecord =
        retry_obs_meta n failure s.budget RetryEventKind.failure_classified in
      let told : starts (s.events ++ rec ∷ []) ≡ k = starts-more s.events (rec ∷ []) q refl in
      let decision : RetryDecision =
        decide_retry policy (state_after env n s.budget failure) (env.wall_after n)
          (env.sample n) in
      if-Turned decision.retry _ _
        (λ e.
          let (low, can) =
            decide_retry-passed policy (state_after env n s.budget failure) (env.wall_after n)
              (env.sample n) e in
          after_decision-Turned policy opts env n (report s rec) failure decision (p low can) c z
            told)
        (λ e. (
          starts-more (s.events ++ rec ∷ []) (observe_retry_terminal_stop rec decision.reason) told
              (starts-stop rec decision.reason),
          retry_handler_error-nil s.last_err failure c z,
        ))

  pub after_run-Turned :
      (failures : FailurePolicy) (policy : RetryPolicy W) (opts : RunWithRetryOpts W)
      → (env : Surroundings A W) (n : ℕ) (s : LoopState W) (out : Option A × ErrorValue)
      → (int_leb policy.max_attempts (pos n) ≡ false
          → is_retryable_failure policy (classify_failure_with_policy failures out.1) ≡ true
          → (safety_of policy opts n).allow ≡ true
          → P)
      → starts s.events ≡ k
      → Turned (after_run failures policy opts env n s out)
  unfolding after_run retry_obs_meta starts
  after_run-Turned failures policy opts env n s (val, e) p q =
      let failure : Failure = classify_failure_with_policy failures e in
      if-Turned (is_nil e) _ _ (λ c. (starts-more s.events _ q refl, refl))
        (λ c.
          if-Turned (kind_eq failure.kind FailureKind.no_failure) _ _ (λ z. (q, c))
            (λ z.
              after_failure-Turned policy opts env n (record s { last_err = e }) failure p c z q))
