-- ===== src/Future/Defs.antt =====
-- The state of a result future of future.go and its operations. The mutex makes each a single step;
-- `none` is the zero value of the result type, and `done` says that the channel is closed.
use go_keylane.Base.{
  ℕ, Bool, true, false, not, ◌&&◌, Option, none, some, List, [], ◌∷◌, ◌++◌, if◌then◌else◌,
}
use go_keylane.Deadline.{DeadlineBudget}
use go_keylane.Failure.Defs.{
  FailureKind, ErrorValue, nil, is_nil, Failure, kind_eq, as_stage_failure, as_error,
}
use go_keylane.Failure.Classify.{FailurePolicy, classify_completion_failure}
use go_keylane.Retry.Decide.{RetryFinalState}
use go_keylane.Retry.Trace.{RetryAttempt, RetryTrace, zero_failure, zero_final}
use go_keylane.Retry.Turns.{zero_budget}

pub record ResultFuture {ℓ κ} (A : Type ℓ) (W : Type κ) : Type (ℓ ⊔ κ) where
  pub done : Bool
  pub val : Option A
  pub err : ErrorValue
  pub failure : Failure
  pub budget : DeadlineBudget
  pub at_completion : DeadlineBudget
  pub retry_attempts : List (RetryAttempt W)
  pub retry_final : RetryFinalState
  pub retry_trace_tracked : Bool

abbrev is_empty {ℓ} : {A : Type ℓ} → List A → Bool
is_empty [] = true
is_empty (a ∷ rest) = false

-- The error that Await gives: a stage's error as it is, any other as its classified Failure.
unfoldable pub error_of : ErrorValue → Failure → ErrorValue
error_of e failure =
    if not (is_nil e) && not (kind_eq failure.kind FailureKind.no_failure)
    then elim (as_stage_failure e) [ some _ ↦ e | none ↦ as_error failure ]
    else e

module _ {ℓ κ} {A : Type ℓ} {W : Type κ} where
  unfoldable pub new_result_future : ResultFuture A W
  new_result_future = record {
    done = false;
    val = none;
    err = nil;
    failure = zero_failure;
    budget = zero_budget;
    at_completion = zero_budget;
    retry_attempts = [];
    retry_final = zero_final;
    retry_trace_tracked = false;
  }

  -- The body of sync.Once runs where the future is not done yet.
  unfoldable pub complete :
      ResultFuture A W
      → Option A
      → ErrorValue
      → FailurePolicy
      → DeadlineBudget
      → Bool
      → ℕ
      → ResultFuture A W
  unfolding error_of
  complete f val e policy budget before now =
      let failure : Failure = classify_completion_failure e policy budget before now in
      if f.done then f else record f {
        done = true;
        val = val;
        err = error_of e failure;
        failure = failure;
        budget = budget;
        at_completion = budget;
      }

  unfoldable pub set_retry_outcome :
      ResultFuture A W → List (RetryAttempt W) → RetryFinalState → Bool → ResultFuture A W
  set_retry_outcome f attempts final tracked =
      if not tracked && is_empty attempts then f else record f {
        retry_attempts = f.retry_attempts ++ attempts;
        retry_final = final;
        retry_trace_tracked = tracked;
      }

  unfoldable pub retry_trace : ResultFuture A W → Option (RetryTrace W)
  retry_trace f =
      if not f.retry_trace_tracked && is_empty f.retry_attempts
      then none
      else some (record { attempts = f.retry_attempts; final = f.retry_final })

  -- What Await gives where the channel is closed.
  unfoldable pub awaited : ResultFuture A W → Option (Option A × ErrorValue)
  awaited f = if f.done then some (f.val, f.err) else none
