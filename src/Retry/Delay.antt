-- ===== src/Retry/Delay.antt =====
-- The bounds of RetryDelay of retry_policy.go.
use go_keylane.Base.{
  ℕ, ◌*◌, ◌^◌, ◌≤◌, ◌≡◌, inl, inr, true, false, ◌&&◌, Bool-cases, arith, if◌then◌else◌,
}
use go_keylane.Base.Ints.{ℤ, pos, negsuc, int_ltb, int_leb, to_nat}
use go_keylane.Base.Floats.{Float, IsExact}
use go_keylane.Retry.Policy.{
  RetryPolicy, or_default, not_negative, millisecond, base_delay, retry_delay,
}

-- At least zero, and at most `high`.
abbrev pub Within : ℤ → ℤ → Type 0
Within high d = (int_leb (pos 0) d ≡ true) × (int_leb d high ≡ true)

not_negative-Within :
    (high d : ℤ)
    → int_leb high (pos 0) ≡ false
    → int_leb d high ≡ true
    → Within high (not_negative d)
not_negative-Within high d h k = ground arith

-- The bound that MaxBackoff means, from its default on.
abbrev pub bound {ℓ} : {W : Type ℓ} → RetryPolicy W → ℤ
bound policy = or_default policy.max_backoff (pos (250 * millisecond))

bound_positive {ℓ} : {W : Type ℓ} (policy : RetryPolicy W) → int_leb (bound policy) (pos 0) ≡ false
bound_positive policy = ground arith

-- A test that says no leaves a value within the bound.
kept :
    (m b : ℤ)
    → int_leb m (pos 0) ≡ false
    → (int_ltb (pos 0) m && int_ltb m b) ≡ false
    → int_leb b m ≡ true
kept m b h c = ground arith

int_leb_refl : (m : ℤ) → int_leb m m ≡ true
int_leb_refl m = ground arith

exact {ℓ} :
    {W : Type ℓ} ⦃f : Float W⦄ (laws : IsExact W) (m : ℤ)
    → int_leb m (pos 0) ≡ false
    → to_nat m ≤ 2 ^ 53
    → f.to_int (f.of_int m) ≡ m
exact laws (pos n) h le = laws.to_int-of_int n le
exact laws (negsuc n) h le = cc

module _ {ℓ} {W : Type ℓ} ⦃f : Float W⦄ (laws : IsExact W) where
  clamped :
      (m : ℤ) (base : W)
      → int_leb m (pos 0) ≡ false
      → to_nat m ≤ 2 ^ 53
      → int_leb
          (f.to_int (if int_ltb (pos 0) m && int_ltb m (f.to_int base) then f.of_int m else base))
          m
        ≡ true
  clamped m base h le = elim (Bool-cases (int_ltb (pos 0) m && int_ltb m (f.to_int base))) [
    | inl e ↦ rw (e, exact laws m h le) (int_leb_refl m)
    | inr e ↦ rw e (kept m (f.to_int base) h e)
  ]

  -- Without jitter the delay before a retry is from 0 up to MaxBackoff, with 250 ms for one that is
  -- not set, where that bound is at most 2^53 ns.
  pub retry_delay-Within :
      (policy : RetryPolicy W) (attempt : ℕ) (sample : W)
      → policy.jitter ≡ false
      → to_nat (bound policy) ≤ 2 ^ 53
      → Within (bound policy) (retry_delay policy attempt sample)
  unfolding retry_delay base_delay
  retry_delay-Within policy attempt sample off le = rw off (
      not_negative-Within (bound policy) _ (bound_positive policy)
        (clamped (bound policy) _ (bound_positive policy) le))
