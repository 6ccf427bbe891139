-- ===== src/Retry/Normal.antt =====
-- NormalizeRetryPolicy, ValidateRetryPolicy and RetryDelay of retry_policy.go.
use go_keylane.Base.{
  ℕ, suc, ◌≡◌, ◌⊎◌, inl, inr, refl, sym, ◌∙◌, ap, Bool, true, false, not, ◌&&◌, ◌||◌, ok, err, ◌>>◌,
  require, Bool-cases, arith,
}
use go_keylane.Base.Ints.{ℤ, pos, int_ltb, int_leb}
use go_keylane.Base.Floats.{Float, IsExact}
use go_keylane.Retry.Policy.{
  RetryPolicy, PolicyError, max_attempts_low, initial_backoff_negative, min_remaining_negative,
  max_backoff_low, multiplier_low, jitter_fraction_range, or_default, float_or_default,
  with_defaults, normalize_retry_policy, check_retry_policy, validate_retry_policy,
}

above_zero : (x y : ℤ) → int_leb y (pos 0) ≡ false → int_leb (or_default x y) (pos 0) ≡ false
above_zero x y h = ground arith

suc_above : (d : ℕ) → int_leb (pos (suc d)) (pos 0) ≡ false
suc_above d = ground arith

module _ {ℓ} {W : Type ℓ} ⦃f : Float W⦄ where
  enabled_normal :
      (policy : RetryPolicy W)
      → policy.enabled ≡ true
      → normalize_retry_policy policy ≡ with_defaults policy
  unfolding normalize_retry_policy
  enabled_normal policy e = rw e refl

  disabled_normal :
      (policy : RetryPolicy W) → policy.enabled ≡ false → normalize_retry_policy policy ≡ policy
  unfolding normalize_retry_policy
  disabled_normal policy e = rw e refl

module _ {ℓ} {W : Type ℓ} ⦃f : Float W⦄ (laws : IsExact W) where
  float_above :
      (x : W) (m n : ℕ) → f.le (float_or_default x (f.ratio (suc m) (suc n))) (f.ratio 0 1) ≡ false
  float_above x m n = elim (Bool-cases (f.le x (f.ratio 0 1))) [
    | inl e ↦ rw e (laws.positive m n)
    | inr e ↦ rw e e
  ]

  with_defaults-idempotent :
      (policy : RetryPolicy W) → with_defaults (with_defaults policy) ≡ with_defaults policy
  unfolding with_defaults
  with_defaults-idempotent policy =
      let initial = above_zero policy.initial_backoff (pos 10_000_000) (suc_above 9_999_999) in
      simp (
        above_zero policy.max_attempts (pos 3) (suc_above 2),
        initial,
        above_zero policy.max_backoff (pos 250_000_000) (suc_above 249_999_999),
        above_zero policy.min_remaining_budget (or_default policy.initial_backoff (pos 10_000_000))
            initial,
        float_above policy.multiplier 1 0,
        float_above policy.jitter_fraction 1 9,
      )

  -- A policy that is normalized already is left as it is.
  pub normalize_retry_policy-idempotent :
      (policy : RetryPolicy W)
      → normalize_retry_policy (normalize_retry_policy policy) ≡ normalize_retry_policy policy
  unfolding with_defaults
  normalize_retry_policy-idempotent policy = elim (Bool-cases policy.enabled) [
    | inl e ↦
        ap normalize_retry_policy (enabled_normal policy e)
        ∙ enabled_normal (with_defaults policy) e
        ∙ with_defaults-idempotent policy
        ∙ sym (enabled_normal policy e)
    | inr e ↦ ap normalize_retry_policy (disabled_normal policy e)
  ]

not_below : (x y : ℤ) → int_leb y (pos 0) ≡ false → int_ltb (or_default x y) (pos 1) ≡ false
not_below x y h = ground arith

zero_up : (x y : ℤ) → int_leb y (pos 0) ≡ false → int_ltb (or_default x y) (pos 0) ≡ false
zero_up x y h = ground arith

-- The chain of the six checks, where the first two and the last pass.
chain_errors :
    (a b c d g h : Bool) {e : PolicyError}
    → a ≡ true
    → b ≡ true
    → h ≡ true
    → (require a max_attempts_low
        >> (require b initial_backoff_negative
            >> (require c max_backoff_low
                >> (require d multiplier_low
                    >> (require g jitter_fraction_range >> require h min_remaining_negative)))))
      ≡ err e
    → (e ≡ max_backoff_low) ⊎ (e ≡ multiplier_low) ⊎ (e ≡ jitter_fraction_range)
chain_errors true true false d g h p q r chain = inl cc
chain_errors true true true false g h p q r chain = inr (inl cc)
chain_errors true true true true false h p q r chain = inr (inr cc)
chain_errors true true true true true h p q r chain = inl cc
chain_errors false b c d g h p q r chain = inl cc
chain_errors true false c d g h p q r chain = inl cc

module _ {ℓ} {W : Type ℓ} ⦃f : Float W⦄ where
  check_retry_policy-with_defaults :
      (policy : RetryPolicy W) {e : PolicyError}
      → check_retry_policy (with_defaults policy) ≡ err e
      → (e ≡ max_backoff_low) ⊎ (e ≡ multiplier_low) ⊎ (e ≡ jitter_fraction_range)
  unfolding check_retry_policy with_defaults
  check_retry_policy-with_defaults policy h =
      let p : RetryPolicy W = with_defaults policy in
      let initial = above_zero policy.initial_backoff (pos 10_000_000) (suc_above 9_999_999) in
      chain_errors (not (int_ltb p.max_attempts (pos 1))) (not (int_ltb p.initial_backoff (pos 0)))
        (not (int_ltb (pos 0) p.max_backoff && int_ltb p.max_backoff p.initial_backoff))
        (not (f.lt (f.ratio 0 1) p.multiplier && f.lt p.multiplier (f.ratio 1 1)))
        (not (f.lt p.jitter_fraction (f.ratio 0 1) || f.lt (f.ratio 1 1) p.jitter_fraction))
        (not (int_ltb p.min_remaining_budget (pos 0)))
        (ap not (not_below policy.max_attempts (pos 3) (suc_above 2)))
        (ap not (zero_up policy.initial_backoff (pos 10_000_000) (suc_above 9_999_999)))
        (ap not (
          zero_up policy.min_remaining_budget (or_default policy.initial_backoff (pos 10_000_000))
            initial))
        h

  disabled_ok :
      (policy : RetryPolicy W) → policy.enabled ≡ false → validate_retry_policy policy ≡ ok tt
  unfolding validate_retry_policy
  disabled_ok policy e = rw e refl

  enabled_check :
      (policy : RetryPolicy W)
      → policy.enabled ≡ true
      → validate_retry_policy policy ≡ check_retry_policy policy
  unfolding validate_retry_policy
  enabled_check policy e = rw e refl

  -- An error that validation can give after normalization is one of three: a bound on the backoff
  -- below the first backoff, a multiplier below 1, or a jitter fraction outside 0 and 1.
  validate_retry_policy-normalize :
      (policy : RetryPolicy W) {e : PolicyError}
      → validate_retry_policy (normalize_retry_policy policy) ≡ err e
      → (policy.enabled ≡ true)
        × ((e ≡ max_backoff_low) ⊎ (e ≡ multiplier_low) ⊎ (e ≡ jitter_fraction_range))
  unfolding validate_retry_policy check_retry_policy normalize_retry_policy with_defaults
  validate_retry_policy-normalize policy h = elim (Bool-cases policy.enabled) [
    | inl e ↦
        let normal = ap validate_retry_policy (enabled_normal policy e) in
        let check = enabled_check (with_defaults policy) e in
        (e, check_retry_policy-with_defaults policy (sym (normal ∙ check) ∙ h))
    | inr e ↦
        let passes = ap validate_retry_policy (disabled_normal policy e) ∙ disabled_ok policy e in
        let absurd = sym h ∙ passes in (cc, inl cc)
  ]
