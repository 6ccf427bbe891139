-- ===== src/Retry/Trace.antt =====
-- What a run with retries is given and what it records: the types of retry_policy.go,
-- retry_trace.go and retry_observability.go, and the questions that are asked of a trace.
use go_keylane.Base.{
  ℕ, Bool, true, false, ◌||◌, String, Option, none, some, List, [], ◌∷◌, if◌then◌else◌,
}
use go_keylane.Base.Ints.{ℤ}
use go_keylane.Deadline.{DeadlineBudget}
use go_keylane.Failure.Defs.{FailureKind, nil, Failure}
use go_keylane.Retry.Safety.{
  RetrySafety, Idempotency, RetrySafetyDecisionReason, RetrySafetyDecision, explicit_override,
}
use go_keylane.Retry.Suppression.{
  RetrySuppressionReason, RetrySuppressionSnapshot, RetrySuppressionPolicy,
}
use go_keylane.Retry.Decide.{RetryDecisionReason, RetryFinalState, RetryEventKind}

pub record RetryAttempt {ℓ} (W : Type ℓ) : Type ℓ where
  pub lane : String
  pub key : String
  pub shard_id : ℕ
  pub attempt : ℕ
  pub delay : ℤ
  pub failure : Failure
  pub reason : RetryDecisionReason
  pub idempotency_key : String
  pub idempotency_scope : String
  pub idempotency_operation : String
  pub retry_safety : RetrySafety
  pub safety_reason : RetrySafetyDecisionReason
  pub suppressed : Bool
  pub suppression_reason : RetrySuppressionReason
  pub pressure_ratio : W
  pub lane_depth_ratio_snap : W
  pub shard_depth_ratio_snap : W

pub record RetryTrace {ℓ} (W : Type ℓ) : Type ℓ where
  pub attempts : List (RetryAttempt W)
  pub final : RetryFinalState

-- The record for the observer, without what is copied from the options and the snapshot.
pub record RetryObsRecord : Type 0 where
  pub kind : RetryEventKind
  pub attempt : ℕ
  pub delay : Option ℤ
  pub failure : Failure
  pub retry_reason : RetryDecisionReason
  pub safety_reason : RetrySafetyDecisionReason
  pub suppression_reason : RetrySuppressionReason
  pub budget : DeadlineBudget

-- Failure{} and RetryFinalState{}
abbrev pub zero_failure : Failure
zero_failure = record {
  kind = FailureKind.other 0;
  err = nil;
  retryable = false;
  temporary = false;
  message = "";
}

abbrev pub zero_final : RetryFinalState
zero_final = record {
  succeeded = false;
  exhausted = false;
  stopped_reason = RetryDecisionReason.unset;
  safety_reason = RetrySafetyDecisionReason.no_reason;
  suppression_reason = RetrySuppressionReason.no_reason;
  failure_kind = FailureKind.other 0;
}

-- The options, with IdempotencyPolicy and Snapshot as what they answer for an attempt; a hook that
-- panics answers `none`.
pub record RunWithRetryOpts {ℓ} (W : Type ℓ) : Type ℓ where
  pub key : String
  pub lane : String
  pub shard_id : ℕ
  pub idempotency : Idempotency
  pub require_for_retry : Bool
  pub safety_hook : Option (ℕ → Option RetrySafetyDecision)
  pub suppression_policy : RetrySuppressionPolicy W
  pub snapshot : Option (ℕ → RetrySuppressionSnapshot W)

abbrev is_override : RetrySafetyDecisionReason → Bool
is_override explicit_override = true
is_override _ = false

module _ {ℓ} {W : Type ℓ} where
  unfoldable any_override : List (RetryAttempt W) → Bool
  any_override [] = false
  any_override (a ∷ rest) = is_override a.safety_reason || any_override rest

  unfoldable pub had_explicit_unsafe_retry : RetryTrace W → Bool
  unfolding any_override
  had_explicit_unsafe_retry t = any_override t.attempts

  -- The loop runs from the last attempt to the first.
  unfoldable last_suppressed : List (RetryAttempt W) → Option RetrySuppressionReason
  last_suppressed [] = none
  last_suppressed (a ∷ rest) = elim (last_suppressed rest) [
    | some r ↦ some r
    | none ↦ if a.suppressed then some a.suppression_reason else none
  ]

  unfoldable pub last_suppression_reason : RetryTrace W → Option RetrySuppressionReason
  unfolding last_suppressed
  last_suppression_reason t = last_suppressed t.attempts

  -- The pointer to the last attempt, and what is written through it.
  unfoldable pub change_last :
      (RetryAttempt W → RetryAttempt W) → List (RetryAttempt W) → List (RetryAttempt W)
  change_last f [] = []
  change_last f (a ∷ []) = f a ∷ []
  change_last f (a ∷ b ∷ rest) = a ∷ change_last f (b ∷ rest)
