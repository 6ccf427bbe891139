-- ===== src/Failure/Wrapping.antt =====
-- What an error is wrapped in does not change how it is classified.
use go_keylane.Base.{
  ◌≡◌, refl, Bool, true, false, List, [], ◌∷◌, String, Option-cases, inl, inr, if◌then◌else◌,
}
use go_keylane.Failure.Defs.{
  ErrorValue, wrapped, stage_failure, Sentinel, Failure, FailureKind, is, as_failure, is_nil,
  has_admission_error, has_per_key_error, new_failure,
}
use go_keylane.Failure.Classify.{
  is_overload_error, is_rejected_error, classify_plain, classify_default,
}

-- The layers that stage code and fmt.Errorf put around an error, the outermost first.
pub data Layer : Type 0 where
  text : Layer
  stage : String → Layer

unfoldable pub wrap : List Layer → ErrorValue → ErrorValue
wrap [] e = e
wrap (text ∷ layers) e = wrapped (wrap layers e)
wrap (stage name ∷ layers) e = stage_failure name (wrap layers e)

-- The kind and the two flags.
abbrev pub SameVerdict : Failure → Failure → Type 0
SameVerdict f g = (f.kind ≡ g.kind) × (f.retryable ≡ g.retryable) × (f.temporary ≡ g.temporary)

is-wrap : (layers : List Layer) (e : ErrorValue) (t : Sentinel) → is (wrap layers e) t ≡ is e t
unfolding wrap is
is-wrap [] e t = refl
is-wrap (text ∷ layers) e t = is-wrap layers e t
is-wrap (stage name ∷ layers) e t = is-wrap layers e t

as_failure-wrap : (layers : List Layer) (e : ErrorValue) → as_failure (wrap layers e) ≡ as_failure e
unfolding wrap as_failure
as_failure-wrap [] e = refl
as_failure-wrap (text ∷ layers) e = as_failure-wrap layers e
as_failure-wrap (stage name ∷ layers) e = as_failure-wrap layers e

has_admission_error-wrap :
    (layers : List Layer) (e : ErrorValue)
    → has_admission_error (wrap layers e) ≡ has_admission_error e
unfolding wrap has_admission_error
has_admission_error-wrap [] e = refl
has_admission_error-wrap (text ∷ layers) e = has_admission_error-wrap layers e
has_admission_error-wrap (stage name ∷ layers) e = has_admission_error-wrap layers e

has_per_key_error-wrap :
    (layers : List Layer) (e : ErrorValue) → has_per_key_error (wrap layers e) ≡ has_per_key_error e
unfolding wrap has_per_key_error
has_per_key_error-wrap [] e = refl
has_per_key_error-wrap (text ∷ layers) e = has_per_key_error-wrap layers e
has_per_key_error-wrap (stage name ∷ layers) e = has_per_key_error-wrap layers e

is_nil-wrap :
    (layers : List Layer) (e : ErrorValue) → is_nil e ≡ false → is_nil (wrap layers e) ≡ false
unfolding wrap is_nil
is_nil-wrap [] e c = c
is_nil-wrap (text ∷ layers) e c = refl
is_nil-wrap (stage name ∷ layers) e c = refl

-- The verdict of classifyDefault's tests, from what they answer.
decided : Bool → Bool → Bool → Bool → Bool → ErrorValue → Failure
decided canceled late overload rejected throttled e =
    if canceled
    then new_failure FailureKind.cancelled e
    else if late
    then new_failure FailureKind.timeout e
    else if overload
    then new_failure FailureKind.overloaded e
    else if rejected
    then if throttled
      then record (new_failure FailureKind.rejected e) { retryable = true; temporary = true }
      else new_failure FailureKind.rejected e
    else new_failure FailureKind.unknown e

decided-SameVerdict :
    (a b c r t : Bool) (d e : ErrorValue) → SameVerdict (decided a b c r t d) (decided a b c r t e)
unfolding decided new_failure
decided-SameVerdict true b c r t d e = (refl, refl, refl)
decided-SameVerdict false true c r t d e = (refl, refl, refl)
decided-SameVerdict false false true r t d e = (refl, refl, refl)
decided-SameVerdict false false false true true d e = (refl, refl, refl)
decided-SameVerdict false false false true false d e = (refl, refl, refl)
decided-SameVerdict false false false false t d e = (refl, refl, refl)

classify_plain-wrap :
    (layers : List Layer) (e : ErrorValue)
    → classify_plain (wrap layers e)
      ≡ decided
          (is e Sentinel.canceled)
          (is e Sentinel.deadline_exceeded)
          (is_overload_error e)
          (is_rejected_error e)
          (is e Sentinel.per_key_throttled)
          (wrap layers e)
unfolding classify_plain decided is_overload_error is_rejected_error
classify_plain-wrap layers e =
    simp (is-wrap layers e, has_admission_error-wrap layers e, has_per_key_error-wrap layers e)

-- An error that is not nil keeps its kind and its two flags under any number of layers of
-- fmt.Errorf with %w and of stage attribution.
pub classify_default-wrap :
    (layers : List Layer) (e : ErrorValue)
    → is_nil e ≡ false
    → SameVerdict (classify_default (wrap layers e)) (classify_default e)
unfolding classify_default decided is wrap new_failure
classify_default-wrap layers e c = elim (Option-cases (as_failure e)) [
  | inl n ↦
      rw
        (
          c,
          is_nil-wrap layers e c,
          as_failure-wrap layers e,
          n,
          classify_plain-wrap layers e,
          classify_plain-wrap [] e,
        )
        (decided-SameVerdict (is e Sentinel.canceled) (is e Sentinel.deadline_exceeded)
          (is_overload_error e) (is_rejected_error e) (is e Sentinel.per_key_throttled)
          (wrap layers e) e)
  | inr (f, n) ↦ rw (c, is_nil-wrap layers e c, as_failure-wrap layers e, n) (refl, refl, refl)
]
