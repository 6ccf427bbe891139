-- ===== src/Retry/Turns.antt =====
-- The surroundings of runWithRetry of retry_policy.go, its result and its local state, and the small
-- functions that it calls.
use go_keylane.Base.{
  ℕ, Bool, false, Option, none, some, List, [], ◌∷◌, ◌++◌, map, ltb, if◌then◌else◌,
}
use go_keylane.Base.Ints.{ℤ}
use go_keylane.Deadline.{DeadlineBudget, refresh_at, with_runtime_at}
use go_keylane.Failure.Defs.{FailureKind, ErrorValue, nil, Failure, as_stage_failure, as_error}
use go_keylane.Retry.Safety.{RetrySafetyDecisionReason}
use go_keylane.Retry.Suppression.{RetrySuppressionReason}
use go_keylane.Retry.Decide.{
  RetryDecision, RetryDecisionReason, RetryFinalState, RetryEventKind, terminal_events,
}
use go_keylane.Retry.Trace.{RetryAttempt, RetryObsRecord}

-- For an attempt: the three readings of clock.Now(), the readings of time.Now() and ctx.Err() before
-- the handler and after it, the handler's value and error, the jitter, and the sleep's error.
pub record Surroundings {ℓ κ} (A : Type ℓ) (W : Type κ) : Type (ℓ ⊔ κ) where
  pub started : ℕ → ℕ
  pub ended : ℕ → ℕ
  pub stamped : ℕ → ℕ
  pub wall_before : ℕ → ℕ
  pub wall_after : ℕ → ℕ
  pub ctx_before : ℕ → ErrorValue
  pub ctx_after : ℕ → ErrorValue
  pub run : ℕ → DeadlineBudget → Option A × ErrorValue
  pub sample : ℕ → W
  pub sleep : ℕ → ℤ → ErrorValue

-- The result, with the observer's records in their order; `none` is the zero value.
pub record RunResult {ℓ κ} (A : Type ℓ) (W : Type κ) : Type (ℓ ⊔ κ) where
  pub val : Option A
  pub err : ErrorValue
  pub budget : DeadlineBudget
  pub before_handler : Bool
  pub retry_attempts : List (RetryAttempt W)
  pub retry_final : RetryFinalState
  pub retry_tracked : Bool
  pub events : List RetryObsRecord

-- The variables that live from one attempt to the next.
pub record LoopState {κ} (W : Type κ) : Type κ where
  pub budget : DeadlineBudget
  pub attempts : List (RetryAttempt W)
  pub last_err : ErrorValue
  pub events : List RetryObsRecord

-- One turn of the loop returns, or goes on to the next attempt.
pub data Turn {ℓ κ} (A : Type ℓ) (W : Type κ) : Type (ℓ ⊔ κ) where
  finished : RunResult A W → Turn A W
  again : LoopState W → Turn A W

unfoldable pub failure_as_error : Failure → ErrorValue
failure_as_error f = elim f.kind [ FailureKind.no_failure ↦ nil | _ ↦ as_error f ]

unfoldable pub retry_handler_error : ErrorValue → Failure → ErrorValue
unfolding failure_as_error
retry_handler_error last_err last_failure = elim (as_stage_failure last_err) [
  | some _ ↦ last_err
  | none ↦ failure_as_error last_failure
]

-- retryObsMeta, with the kind
unfoldable pub retry_obs_meta : ℕ → Failure → DeadlineBudget → RetryEventKind → RetryObsRecord
retry_obs_meta attempt failure budget kind = record {
  kind = kind;
  attempt = attempt;
  delay = none;
  failure = failure;
  retry_reason = RetryDecisionReason.unset;
  safety_reason = RetrySafetyDecisionReason.no_reason;
  suppression_reason = RetrySuppressionReason.no_reason;
  budget = budget;
}

unfoldable pub observe_retry_terminal_stop :
    RetryObsRecord → RetryDecisionReason → List RetryObsRecord
observe_retry_terminal_stop rec reason =
    map (λ kind. record rec { kind = kind; retry_reason = reason }) (terminal_events reason)

unfoldable pub budget_at : DeadlineBudget → DeadlineBudget → ℕ → DeadlineBudget
budget_at start last now =
    if ltb 0 last.runtime
    then with_runtime_at (refresh_at start now) last.runtime now
    else refresh_at start now

-- DeadlineBudget{}
abbrev pub zero_budget : DeadlineBudget
zero_budget = record {
  started_at = 0;
  deadline = 0;
  has_deadline = false;
  queue_wait = 0;
  runtime = 0;
  remaining = 0;
  exhausted = false;
}

-- The record that a retry is scheduled.
unfoldable pub scheduled_record :
    ℕ → Failure → DeadlineBudget → RetryDecision → RetrySafetyDecisionReason → RetryObsRecord
unfolding retry_obs_meta
scheduled_record n failure budget decision safety =
    record (retry_obs_meta n failure budget RetryEventKind.scheduled) {
      retry_reason = decision.reason;
      safety_reason = safety;
      delay = some decision.delay;
    }

abbrev pub report {κ} : {W : Type κ} → LoopState W → RetryObsRecord → LoopState W
report s rec = record s { events = s.events ++ rec ∷ [] }

abbrev pub initial_state {κ} : {W : Type κ} → DeadlineBudget → LoopState W
initial_state start = record { budget = start; attempts = []; last_err = nil; events = [] }
