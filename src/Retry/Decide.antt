-- ===== src/Retry/Decide.antt =====
-- DecideRetry and the reasons of a decision: retry_policy.go and retry_trace.go.
use go_keylane.Base.{
  ℕ, zero, Bool, true, false, not, ◌&&◌, ◌||◌, Option, none, some, List, [], ◌∷◌, ◌==◌,
  if◌then◌else◌,
}
use go_keylane.Base.Ints.{ℤ, pos, int_ltb, int_leb, ◌+ℤ◌}
use go_keylane.Base.Floats.{Float}
use go_keylane.Deadline.{DeadlineBudget, is_exhausted_at, remaining_at}
use go_keylane.Failure.Defs.{FailureKind, ErrorValue, is_nil, Failure, kind_eq}
use go_keylane.Failure.Classify.{classify_context_error_at}
use go_keylane.Retry.Policy.{RetryPolicy, retry_delay}
use go_keylane.Retry.Safety.{RetrySafetyDecisionReason}
use go_keylane.Retry.Suppression.{RetrySuppressionReason}

-- `unset` is the empty text.
pub data RetryDecisionReason : Type 0 where
  unset no_decision disabled retryable_failure permanent_failure : RetryDecisionReason
  max_attempts context_cancelled deadline_exhausted budget_too_small : RetryDecisionReason

-- The parts of a decision that are not copied from the state.
pub record RetryDecision : Type 0 where
  pub retry : Bool
  pub delay : ℤ
  pub reason : RetryDecisionReason
  pub failure : Failure

-- `ctx_err` is what the context's Err gives, `nil` where there is no context; `now` is `none` for the
-- zero time.
pub record RetryState : Type 0 where
  pub ctx_err : ErrorValue
  pub attempt : ℕ
  pub failure : Failure
  pub budget : DeadlineBudget
  pub now : Option ℕ

unfoldable pub any_kind : FailureKind → List FailureKind → Bool
any_kind kind [] = false
any_kind kind (k ∷ ks) = kind_eq kind k || any_kind kind ks

abbrev pub refuse : Failure → RetryDecisionReason → ℤ → RetryDecision
refuse failure reason delay = record {
  retry = false;
  delay = delay;
  reason = reason;
  failure = failure;
}

module _ {ℓ} {W : Type ℓ} ⦃f : Float W⦄ where
  unfoldable pub is_retryable_failure : RetryPolicy W → Failure → Bool
  unfolding any_kind
  is_retryable_failure policy failure = elim failure.kind [
    | FailureKind.no_failure ↦ false
    | FailureKind.retryable ↦ elim policy.retryable_kinds [
      | [] ↦ true
      | ks ↦ any_kind failure.kind ks
    ]
    | FailureKind.other n ↦ elim policy.retryable_kinds [
      | [] ↦ failure.retryable
      | ks ↦ any_kind failure.kind ks
    ]
    | _ ↦ elim policy.retryable_kinds [ [] ↦ false | ks ↦ any_kind failure.kind ks ]
  ]

  -- The tests on the deadline, from the delay on. The sum is one of 64 bits.
  unfoldable pub fit_deadline : RetryPolicy W → RetryState → ℕ → ℤ → RetryDecision
  fit_deadline policy s now delay =
      let left : ℕ = remaining_at s.budget now in
      if s.budget.has_deadline && int_ltb (pos left) (delay +ℤ policy.min_remaining_budget)
      then refuse s.failure (if left == 0 then deadline_exhausted else budget_too_small) delay
      else record { retry = true; delay = delay; reason = retryable_failure; failure = s.failure }

  -- `clock` is what time.Now() gives, and `sample` what the jitter source gives.
  unfoldable pub decide_retry : RetryPolicy W → RetryState → ℕ → W → RetryDecision
  unfolding is_retryable_failure fit_deadline
  decide_retry policy s clock sample =
      let now : ℕ = elim s.now [ some t ↦ t | none ↦ clock ] in
      if not policy.enabled
      then refuse s.failure disabled (pos 0)
      else if not (is_nil s.ctx_err)
      then refuse (classify_context_error_at s.ctx_err s.budget false clock) context_cancelled
          (pos 0)
      else if int_leb policy.max_attempts (pos s.attempt)
      then refuse s.failure max_attempts (pos 0)
      else if not (is_retryable_failure policy s.failure)
      then refuse s.failure permanent_failure (pos 0)
      else if s.budget.has_deadline && is_exhausted_at s.budget now
      then refuse s.failure deadline_exhausted (pos 0)
      else fit_deadline policy s now (retry_delay policy s.attempt sample)

pub record RetryFinalState : Type 0 where
  pub succeeded : Bool
  pub exhausted : Bool
  pub stopped_reason : RetryDecisionReason
  pub safety_reason : RetrySafetyDecisionReason
  pub suppression_reason : RetrySuppressionReason
  pub failure_kind : FailureKind

-- An empty kind is recorded as unknown.
abbrev kind_or_unknown : FailureKind → FailureKind
kind_or_unknown (FailureKind.other zero) = FailureKind.unknown
kind_or_unknown kind = kind

unfoldable pub final_state_from_failure :
    Failure
    → Bool
    → RetryDecisionReason
    → RetrySafetyDecisionReason
    → RetrySuppressionReason
    → RetryFinalState
final_state_from_failure failure exhausted stopped safety suppress = record {
  succeeded = false;
  exhausted = exhausted;
  stopped_reason = stopped;
  safety_reason = safety;
  suppression_reason = suppress;
  failure_kind = kind_or_unknown failure.kind;
}

unfoldable pub retry_terminal_exhausted : RetryDecisionReason → Bool
retry_terminal_exhausted max_attempts = true
retry_terminal_exhausted _ = false

pub data RetryEventKind : Type 0 where
  attempt_started failure_classified scheduled suppressed safety_suppressed : RetryEventKind
  deadline_stopped max_attempts_stopped exhausted_event context_cancelled_event : RetryEventKind
  retry_stopped succeeded_event : RetryEventKind

-- The kinds of event that observeRetryTerminalStop reports.
unfoldable pub terminal_events : RetryDecisionReason → List RetryEventKind
terminal_events max_attempts = max_attempts_stopped ∷ exhausted_event ∷ []
terminal_events deadline_exhausted = deadline_stopped ∷ []
terminal_events budget_too_small = deadline_stopped ∷ []
terminal_events context_cancelled = context_cancelled_event ∷ []
terminal_events permanent_failure = retry_stopped ∷ []
terminal_events disabled = retry_stopped ∷ []
terminal_events _ = []
