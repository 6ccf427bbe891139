-- ===== src/Future/Once.antt =====
-- A future of future.go is completed once, and its error carries its failure.
use go_keylane.Base.{
  ℕ, ◌≡◌, ◌⊎◌, refl, ◌∙◌, inl, inr, Bool, true, false, not, ◌&&◌, Option, some, none, List, [], ◌∷◌,
  if◌then◌else◌,
}
use go_keylane.Deadline.{DeadlineBudget}
use go_keylane.Failure.Defs.{
  ErrorValue, is_nil, Failure, FailureKind, kind_eq, as_stage_failure, as_error, as_failure,
}
use go_keylane.Failure.Classify.{FailurePolicy, classify_completion_failure}
use go_keylane.Retry.Trace.{RetryAttempt}
use go_keylane.Retry.Decide.{RetryFinalState}
use go_keylane.Future.Defs.{ResultFuture, complete, set_retry_outcome, awaited, error_of}

-- A call that the owner of a future makes.
pub data Call {ℓ κ} (A : Type ℓ) (W : Type κ) : Type (ℓ ⊔ κ) where
  completing : Option A → ErrorValue → FailurePolicy → DeadlineBudget → Bool → ℕ → Call A W
  tracing : List (RetryAttempt W) → RetryFinalState → Bool → Call A W

-- What Await gives for the handler's error `e`, which is classified as `failure`: `e` itself where it
-- is nil, is classified as no failure, or has a stage's failure for errors.As, and otherwise an error
-- that has `failure` for errors.As.
abbrev pub IsErrorOf : ErrorValue → Failure → ErrorValue → Type 0
IsErrorOf e failure x =
    ((x ≡ e)
      × ((is_nil e ≡ true)
          ⊎ (kind_eq failure.kind FailureKind.no_failure ≡ true)
          ⊎ ((inner : ErrorValue) × (as_stage_failure e ≡ some inner))))
    ⊎ ((is_nil e ≡ false)
        × (kind_eq failure.kind FailureKind.no_failure ≡ false)
        × (as_stage_failure e ≡ none)
        × (is_nil x ≡ false)
        × (as_failure x ≡ some failure))

chosen :
    (n z : Bool) (o : Option ErrorValue) (e : ErrorValue) (failure : Failure)
    → is_nil e ≡ n
    → kind_eq failure.kind FailureKind.no_failure ≡ z
    → as_stage_failure e ≡ o
    → IsErrorOf e failure
        (if not n && not z then elim o [ some _ ↦ e | none ↦ as_error failure ] else e)
unfolding as_error as_failure is_nil
chosen true z o e failure h k s = inl (refl, inl h)
chosen false true o e failure h k s = inl (refl, inr (inl k))
chosen false false none e failure h k s = inr (h, k, s, refl, refl)
chosen false false (some x) e failure h k s = inl (refl, inr (inr (x, s)))

error_of-IsErrorOf : (e : ErrorValue) (failure : Failure) → IsErrorOf e failure (error_of e failure)
unfolding error_of
error_of-IsErrorOf e failure =
    chosen (is_nil e) (kind_eq failure.kind FailureKind.no_failure) (as_stage_failure e) e failure
      refl refl refl

module _ {ℓ κ} {A : Type ℓ} {W : Type κ} where
  unfoldable pub call : ResultFuture A W → Call A W → ResultFuture A W
  unfolding complete set_retry_outcome
  call f (completing val e policy budget before now) = complete f val e policy budget before now
  call f (tracing attempts final tracked) = set_retry_outcome f attempts final tracked

  unfoldable pub calls : ResultFuture A W → List (Call A W) → ResultFuture A W
  unfolding call
  calls f [] = f
  calls f (c ∷ cs) = calls (call f c) cs

  -- What a reader of a future sees of its completion.
  abbrev pub Seen : ResultFuture A W → ResultFuture A W → Type ℓ
  Seen f g =
      (awaited f ≡ awaited g) × (f.done ≡ g.done) × (f.failure ≡ g.failure) × (f.budget ≡ g.budget)

  if-Seen :
      (b : Bool) (x y f : ResultFuture A W) → Seen x f → Seen y f → Seen (if b then x else y) f
  if-Seen true x y f h k = h
  if-Seen false x y f h k = k

  call-Seen : (f : ResultFuture A W) (c : Call A W) → f.done ≡ true → Seen (call f c) f
  unfolding call complete set_retry_outcome awaited
  call-Seen f (completing val e policy budget before now) d = rw d (refl, refl, refl, refl)
  call-Seen f (tracing attempts final tracked) d =
      if-Seen _ _ _ f (refl, refl, refl, refl) (refl, refl, refl, refl)

  -- Once a future is completed, no calls of its owner change the value and error that Await gives, the
  -- failure or the budget.
  pub calls-Seen :
      (f : ResultFuture A W) (cs : List (Call A W)) → f.done ≡ true → Seen (calls f cs) f
  unfolding calls
  calls-Seen f [] d = (refl, refl, refl, refl)
  calls-Seen f (c ∷ cs) d =
      let (a, b, x, y) = call-Seen f c d in
      let (a₁, b₁, x₁, y₁) = calls-Seen (call f c) cs (b ∙ d) in (a₁ ∙ a, b₁ ∙ b, x₁ ∙ x, y₁ ∙ y)

  -- The first completion of a future gives the handler's error as it is where that is nil, is
  -- classified as no failure, or has a stage's failure for errors.As, and otherwise an error that is
  -- not nil and has, for errors.As, the failure that the future records.
  pub complete-carries :
      (f : ResultFuture A W) (val : Option A) (e : ErrorValue) (policy : FailurePolicy)
      → (budget : DeadlineBudget) (before : Bool) (now : ℕ) → f.done ≡ false
      → let g = complete f val e policy budget before now in
        (g.done ≡ true) × (g.val ≡ val) × IsErrorOf e g.failure g.err
  unfolding complete
  complete-carries f val e policy budget before now d =
      let c = error_of-IsErrorOf e (classify_completion_failure e policy budget before now) in
      rw d (refl, refl, c)
