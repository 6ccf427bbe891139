-- ===== src/Failure/Classify.antt =====
-- The classification of failure.go and of ClassifyContextErrorAt of deadline_budget.go.
use go_keylane.Base.{ℕ, zero, Bool, true, false, ◌||◌, ◌&&◌, Option, none, some, if◌then◌else◌}
use go_keylane.Deadline.{DeadlineBudget, is_exhausted_at}
use go_keylane.Failure.Defs.{
  FailureKind, Sentinel, ErrorValue, nil, Failure, is, is_nil, as_failure, as_stage_failure,
  has_admission_error, has_per_key_error, new_failure, kind_eq,
}

-- ErrQueueNotStarted is ErrNotStarted.
unfoldable pub is_overload_error : ErrorValue → Bool
is_overload_error e =
    is e Sentinel.overload_rejected
    || is e Sentinel.overload_shed
    || is e Sentinel.overload_degraded

unfoldable pub is_rejected_error : ErrorValue → Bool
is_rejected_error e =
    is e Sentinel.admission_rejected
    || (is e Sentinel.queue_full
        || is e Sentinel.stopped
        || is e Sentinel.not_started
        || is e Sentinel.invalid_lane
        || is e Sentinel.invalid_job
        || is e Sentinel.invalid_key
        || is e Sentinel.nil_job_run)
    || (is e Sentinel.per_key_rejected
        || is e Sentinel.per_key_throttled
        || is e Sentinel.per_key_shed)
    || has_admission_error e
    || has_per_key_error e

-- The tests of classifyDefault below the one for a Failure.
unfoldable pub classify_plain : ErrorValue → Failure
unfolding is_overload_error is_rejected_error
classify_plain e =
    if is e Sentinel.canceled
    then new_failure FailureKind.cancelled e
    else if is e Sentinel.deadline_exceeded
    then new_failure FailureKind.timeout e
    else if is_overload_error e
    then new_failure FailureKind.overloaded e
    else if is_rejected_error e
    then if is e Sentinel.per_key_throttled
      then record (new_failure FailureKind.rejected e) { retryable = true; temporary = true }
      else new_failure FailureKind.rejected e
    else new_failure FailureKind.unknown e

unfoldable pub classify_default : ErrorValue → Failure
unfolding classify_plain is_nil
classify_default e =
    if is_nil e
    then new_failure FailureKind.no_failure nil
    else elim (as_failure e) [ some f ↦ f | none ↦ classify_plain e ]

pub record FailurePolicy : Type 0 where
  pub classifier : Option (ErrorValue → Failure)

abbrev is_used : Failure → Bool
is_used f = elim f.kind [ FailureKind.unknown ↦ false | FailureKind.other zero ↦ false | _ ↦ true ]

-- The classifier's failure, where it has one and says more than `unknown`.
unfoldable pub custom_or_default : FailurePolicy → ErrorValue → Failure
unfolding classify_default
custom_or_default policy e = elim policy.classifier [
  | none ↦ classify_default e
  | some classifier ↦ if is_used (classifier e) then classifier e else classify_default e
]

unfoldable pub classify_failure_with_policy : FailurePolicy → ErrorValue → Failure
unfolding custom_or_default is_nil
classify_failure_with_policy policy e =
    if is_nil e
    then new_failure FailureKind.no_failure nil
    else elim (as_failure e) [ some f ↦ f | none ↦ custom_or_default policy e ]

unfoldable pub classify_context_error_at : ErrorValue → DeadlineBudget → Bool → ℕ → Failure
unfolding classify_default is_nil
classify_context_error_at e budget before now =
    if is_nil e
    then new_failure FailureKind.no_failure nil
    else if is e Sentinel.canceled
    then new_failure FailureKind.cancelled e
    else if is e Sentinel.deadline_exceeded
    then if before && is_exhausted_at budget now
      then new_failure FailureKind.deadline_exhausted e
      else new_failure FailureKind.timeout e
    else classify_default e

pub data RequestOutcome : Type 0 where
  completed failed cancelled timed_out rejected admission_rejected : RequestOutcome
  overload_rejected overload_shed overload_degraded : RequestOutcome

unfoldable pub failure_kind_to_request_outcome : FailureKind → RequestOutcome
failure_kind_to_request_outcome FailureKind.no_failure = completed
failure_kind_to_request_outcome FailureKind.cancelled = cancelled
failure_kind_to_request_outcome FailureKind.timeout = timed_out
failure_kind_to_request_outcome FailureKind.deadline_exhausted = timed_out
failure_kind_to_request_outcome FailureKind.overloaded = overload_rejected
failure_kind_to_request_outcome FailureKind.rejected = rejected
failure_kind_to_request_outcome _ = failed

-- The tests of future.go on the error that a stage wraps.
unfoldable pub classify_root :
    ErrorValue → ErrorValue → FailurePolicy → DeadlineBudget → Bool → ℕ → Failure
unfolding classify_context_error_at classify_failure_with_policy
classify_root e root policy budget before now =
    if is root Sentinel.canceled || is root Sentinel.deadline_exceeded
    then classify_context_error_at root budget before now
    else classify_failure_with_policy policy e

-- errors.As gives a Failure that says the deadline is exhausted.
unfoldable pub says_exhausted : ErrorValue → Bool
says_exhausted e = elim (as_failure e) [
  | some f ↦ kind_eq f.kind FailureKind.deadline_exhausted
  | none ↦ false
]

-- classifyCompletionFailure of future.go, with the time that time.Now() gives.
unfoldable pub classify_completion_failure :
    ErrorValue → FailurePolicy → DeadlineBudget → Bool → ℕ → Failure
unfolding classify_root says_exhausted is_nil
classify_completion_failure e policy budget before now =
    if is_nil e then new_failure FailureKind.no_failure nil else elim (as_stage_failure e) [
      | some root ↦
          if says_exhausted root && is root Sentinel.budget_exhausted
          then classify_failure_with_policy policy e
          else classify_root e root policy budget before now
      | none ↦ classify_root e e policy budget before now
    ]
