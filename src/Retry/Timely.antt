-- ===== src/Retry/Timely.antt =====
-- DecideRetry of retry_policy.go does not depend on when it reads the clock, while the deadline is far
-- enough.
use go_keylane.Base.{
  ℕ, ◌-◌, ◌≤◌, ◌<◌, ◌≡◌, ◌⊎◌, refl, inl, inr, true, false, some, Bool-cases, lt→ltb, arith,
}
use go_keylane.Base.Ints.{ℤ, pos, negsuc, int_ltb, ◌+ℤ◌}
use go_keylane.Base.Floats.{Float}
use go_keylane.Deadline.{DeadlineBudget, is_exhausted_at, remaining_at}
use go_keylane.Retry.Policy.{RetryPolicy, retry_delay}
use go_keylane.Retry.Decide.{RetryDecision, RetryState, decide_retry, fit_deadline}

int_ltb-more : (a b : ℕ) (x : ℤ) → a ≤ b → int_ltb (pos a) x ≡ false → int_ltb (pos b) x ≡ false
int_ltb-more a b (pos n) h e = ground arith
int_ltb-more a b (negsuc n) h e = refl

-- The deadline is after `t`, by what is needed at least.
abbrev pub IsAmple : DeadlineBudget → ℕ → ℤ → Type 0
IsAmple b t need = (t < b.deadline) × (int_ltb (pos (b.deadline - t)) need ≡ false)

IsAmple-earlier :
    (b : DeadlineBudget) (t u : ℕ) (need : ℤ) → t ≤ u → IsAmple b u need → IsAmple b t need
IsAmple-earlier b t u need h (before, left) =
    (omega arith, int_ltb-more (b.deadline - u) (b.deadline - t) need (omega arith) left)

not_exhausted : (b : DeadlineBudget) (t : ℕ) → t < b.deadline → is_exhausted_at b t ≡ false
unfolding is_exhausted_at
not_exhausted b t h = ground (arith, lt→ltb t b.deadline h)

remaining : (b : DeadlineBudget) (t : ℕ) → b.has_deadline ≡ true → remaining_at b t ≡ b.deadline - t
unfolding remaining_at
remaining b t h = rw h refl

module _ {κ} {W : Type κ} ⦃f : Float W⦄ (policy : RetryPolicy W) (s : RetryState) (clock : ℕ)
    (sample : W) where
  abbrev decided : ℕ → RetryDecision
  decided t = decide_retry policy (record s { now = some t }) clock sample

  no_deadline : (t u : ℕ) → s.budget.has_deadline ≡ false → decided t ≡ decided u
  unfolding decide_retry fit_deadline
  no_deadline t u h = rw h refl

  abbrev IsInTime : ℕ → Type 0
  IsInTime t =
      IsAmple s.budget t (retry_delay policy s.attempt sample +ℤ policy.min_remaining_budget)

  ample : (t u : ℕ) → s.budget.has_deadline ≡ true → IsInTime t → IsInTime u → decided t ≡ decided u
  unfolding decide_retry fit_deadline
  ample t u h a b =
      rw
        (
          not_exhausted s.budget t a.0,
          not_exhausted s.budget u b.0,
          remaining s.budget t h,
          remaining s.budget u h,
          a.1,
          b.1,
          h,
        )
        refl

  -- No deadline, or one that is far enough also at the later reading.
  abbrev pub IsTimely : ℕ → ℕ → Type 0
  IsTimely t u = (s.budget.has_deadline ≡ false) ⊎ ((t ≤ u) × IsInTime u)

  pub decide_retry-timely : (t u : ℕ) → IsTimely t u → decided u ≡ decided t
  decide_retry-timely t u (inl h) = no_deadline u t h
  decide_retry-timely t u (inr (le, v)) = elim (Bool-cases s.budget.has_deadline) [
    | inl h ↦ ample u t h v (IsAmple-earlier s.budget t u _ le v)
    | inr h ↦ no_deadline u t h
  ]
