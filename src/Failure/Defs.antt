-- ===== src/Failure/Defs.antt =====
-- The values of type `error` that the classification looks into, `errors.Is` and `errors.As` on
-- them, and the type Failure of failure.go with its constructors.
use go_keylane.Base.{ℕ, ◌+◌, Bool, true, false, ◌||◌, String, Option, none, some, ◌==◌}

-- `other` is a text that is not a constant of the source, by a number; `other 0` is the empty one.
pub data FailureKind : Type 0 where
  no_failure retryable permanent timeout cancelled overloaded rejected : FailureKind
  deadline_exhausted panic unknown : FailureKind
  other : ℕ → FailureKind

abbrev kind_number : FailureKind → ℕ
kind_number no_failure = 0
kind_number retryable = 1
kind_number permanent = 2
kind_number timeout = 3
kind_number cancelled = 4
kind_number overloaded = 5
kind_number rejected = 6
kind_number deadline_exhausted = 7
kind_number panic = 8
kind_number unknown = 9
kind_number (other n) = 10 + n

abbrev pub kind_eq : FailureKind → FailureKind → Bool
kind_eq a b = kind_number a == kind_number b

-- The errors that are compared by identity. `budget_exhausted` is
-- errPipelineBudgetExhaustedBeforeStage; `foreign` is a sentinel that this package does not test.
pub data Sentinel : Type 0 where
  canceled deadline_exceeded budget_exhausted : Sentinel
  queue_full stopped not_started invalid_lane invalid_job invalid_key nil_job_run : Sentinel
  admission_rejected backend_admission : Sentinel
  overload_rejected overload_shed overload_degraded : Sentinel
  per_key_rejected per_key_throttled per_key_shed : Sentinel
  foreign : ℕ → Sentinel

abbrev number : Sentinel → ℕ
number canceled = 0
number deadline_exceeded = 1
number budget_exhausted = 2
number queue_full = 3
number stopped = 4
number not_started = 5
number invalid_lane = 6
number invalid_job = 7
number invalid_key = 8
number nil_job_run = 9
number admission_rejected = 10
number backend_admission = 11
number overload_rejected = 12
number overload_shed = 13
number overload_degraded = 14
number per_key_rejected = 15
number per_key_throttled = 16
number per_key_shed = 17
number (foreign n) = 18 + n

-- err == target, or the method Is of pipelineBudgetExhaustedSentinel.
unfoldable pub matches : Sentinel → Sentinel → Bool
matches budget_exhausted deadline_exceeded = true
matches s t = number s == number t

pub data OverloadAction : Type 0 where
  keep reject shed degrade : OverloadAction

pub data PerKeyMitigationAction : Type 0 where
  mitigation_allow mitigation_reject mitigation_shed : PerKeyMitigationAction
  mitigation_throttle : PerKeyMitigationAction

-- `wrapped` is an error of fmt.Errorf with one %w. The other constructors are the package's own error
-- types, with what the classification reads of them; the text of `stage_failure` is the stage's name.
pub data ErrorValue : Type 0 where
  nil : ErrorValue
  sentinel : Sentinel → ErrorValue
  wrapped : ErrorValue → ErrorValue
  failure_error : FailureKind → ErrorValue → Bool → Bool → String → ErrorValue
  stage_failure : String → ErrorValue → ErrorValue
  admission_error : ErrorValue
  per_key_error : PerKeyMitigationAction → ErrorValue
  overload_error : OverloadAction → ErrorValue
  backend_error : ErrorValue → ErrorValue

unfoldable pub is_nil : ErrorValue → Bool
is_nil nil = true
is_nil _ = false

-- The methods Unwrap of PerKeyAdmissionError and OverloadError.
unfoldable pub unwrap_per_key : PerKeyMitigationAction → Sentinel
unwrap_per_key mitigation_throttle = per_key_throttled
unwrap_per_key mitigation_shed = per_key_shed
unwrap_per_key _ = per_key_rejected

unfoldable pub unwrap_overload : OverloadAction → Sentinel
unwrap_overload shed = overload_shed
unwrap_overload degrade = overload_degraded
unwrap_overload _ = overload_rejected

-- errors.Is(err, target) for a sentinel as the target.
unfoldable pub is : ErrorValue → Sentinel → Bool
unfolding matches unwrap_per_key unwrap_overload
is nil t = false
is (sentinel s) t = matches s t
is (wrapped e) t = is e t
is (failure_error kind e retry brief message) t = is e t
is (stage_failure name e) t = is e t
is admission_error t = matches admission_rejected t
is (per_key_error a) t = matches (unwrap_per_key a) t
is (overload_error a) t = matches (unwrap_overload a) t
is (backend_error e) t = matches backend_admission t || is e t

pub record Failure : Type 0 where
  pub kind : FailureKind
  pub err : ErrorValue
  pub retryable : Bool
  pub temporary : Bool
  pub message : String

-- errors.As(err, &f) for each of the types that the code asks for: the first in the chain.
unfoldable pub as_failure : ErrorValue → Option Failure
as_failure (failure_error kind e retry brief message) =
    some (record { kind = kind; err = e; retryable = retry; temporary = brief; message = message })
as_failure (wrapped e) = as_failure e
as_failure (stage_failure name e) = as_failure e
as_failure (backend_error e) = as_failure e
as_failure _ = none

-- What is asked of a *StageFailure is its wrapped error.
unfoldable pub as_stage_failure : ErrorValue → Option ErrorValue
as_stage_failure (stage_failure name e) = some e
as_stage_failure (wrapped e) = as_stage_failure e
as_stage_failure (failure_error kind e retry brief message) = as_stage_failure e
as_stage_failure (backend_error e) = as_stage_failure e
as_stage_failure _ = none

unfoldable pub has_admission_error : ErrorValue → Bool
has_admission_error admission_error = true
has_admission_error (wrapped e) = has_admission_error e
has_admission_error (failure_error kind e retry brief message) = has_admission_error e
has_admission_error (stage_failure name e) = has_admission_error e
has_admission_error (backend_error e) = has_admission_error e
has_admission_error _ = false

unfoldable pub has_per_key_error : ErrorValue → Bool
has_per_key_error (per_key_error a) = true
has_per_key_error (wrapped e) = has_per_key_error e
has_per_key_error (failure_error kind e retry brief message) = has_per_key_error e
has_per_key_error (stage_failure name e) = has_per_key_error e
has_per_key_error (backend_error e) = has_per_key_error e
has_per_key_error _ = false

-- A Failure as a value of type `error`.
unfoldable pub as_error : Failure → ErrorValue
as_error f = failure_error f.kind f.err f.retryable f.temporary f.message

unfoldable pub is_terminal : Failure → Bool
is_terminal f = elim f.kind [ no_failure ↦ false | FailureKind.retryable ↦ false | _ ↦ true ]

unfoldable pub new_failure : FailureKind → ErrorValue → Failure
new_failure kind e =
    let flag : Bool = elim kind [ FailureKind.retryable ↦ true | _ ↦ false ] in
    record { kind = kind; err = e; retryable = flag; temporary = flag; message = "" }
