-- ===== src/Retry/Sparing.antt =====
-- Which lanes DecideRetrySuppression of retry_suppression.go holds back.
use go_keylane.Base.{
  ◌≡◌, ◌⊎◌, inl, inr, ◌∙◌, ap, refl, Bool, true, false, not, ◌&&◌, ◌||◌, All, List, [], ◌∷◌, ◌++◌,
  Option, none, some, arith, if◌then◌else◌,
}
use go_keylane.Base.Floats.{Float}
use go_keylane.Retry.Suppression.{
  LaneClass, critical, normal, background, best_effort, other_class, RetrySuppressionReason,
  global_pressure, scale_out_recommended, RetrySuppressionCheck, RetrySuppressionDecision,
  RetrySuppressionPolicy,
}
use go_keylane.Retry.Suppressing.{
  is_non_critical_lane_class, suppress_decision, first, by_failure, by_pressure, by_hot_key,
  by_hook, decide_retry_suppression,
}

-- The reasons that are meant for background and best-effort lanes.
unfoldable pub is_low_reason : RetrySuppressionReason → Bool
is_low_reason global_pressure = true
is_low_reason scale_out_recommended = true
is_low_reason _ = false

-- A test with such a decision is passed only on such a lane.
abbrev Spares : Bool → Bool × RetrySuppressionDecision → Type 0
Spares low (test, d) = (not test || not (is_low_reason d.reason) || low) ≡ true

implied : (x low : Bool) → (not true || not x || low) ≡ true → x ≡ true → low ≡ true
implied x low h e = ground arith

first_low :
    (low : Bool) (tests : List (Bool × RetrySuppressionDecision)) {d : RetrySuppressionDecision}
    → All (Spares low) tests
    → first tests ≡ some d
    → is_low_reason d.reason ≡ true
    → low ≡ true
unfolding first is_low_reason
first_low low [] all h c = cc
first_low low ((true, d₁) ∷ rest) {d} (s, all) h c =
    let same : d₁ ≡ d = cc in
    implied (is_low_reason d₁.reason) low s (ap (λ x. is_low_reason x.reason) same ∙ c)
first_low low ((false, d) ∷ rest) (s, all) h c = first_low low rest all h c

passes : (a low : Bool) → (not a || true || low) ≡ true
passes a low = ground arith

low_of : (a b low : Bool) → (not (a && b && low) || false || low) ≡ true
low_of a b low = ground arith

-- The shape of DecideRetrySuppression: switched off, the answer of a test, or the last answer.
answered :
    (enabled low : Bool) (o : Option RetrySuppressionDecision) (off last : RetrySuppressionDecision)
    → ((d : RetrySuppressionDecision) → o ≡ some d → is_low_reason d.reason ≡ true → low ≡ true)
    → is_low_reason off.reason ≡ false
    → is_low_reason last.reason ≡ false
    → is_low_reason (if not enabled then off else elim o [ some d ↦ d | none ↦ last ]).reason ≡ true
    → low ≡ true
answered false low o off last by_test q r h = cc
answered true low none off last by_test q r h = cc
answered true low (some d) off last by_test q r h = by_test d refl h

by_hook-none {ℓ} :
    {W : Type ℓ} ⦃f : Float W⦄ (policy : RetrySuppressionPolicy W) (check : RetrySuppressionCheck W)
    → policy.hook ≡ none
    → is_low_reason (by_hook policy check).reason ≡ false
unfolding by_hook is_low_reason
by_hook-none policy check h = rw (h, by_hook) refl

-- The classes of such lanes, by name.
abbrev pub IsLow : LaneClass → Type 0
IsLow class = (class ≡ background) ⊎ (class ≡ best_effort)

non_critical-IsLow : (class : LaneClass) → is_non_critical_lane_class class ≡ true → IsLow class
unfolding is_non_critical_lane_class
non_critical-IsLow critical e = cc
non_critical-IsLow normal e = cc
non_critical-IsLow background e = inl refl
non_critical-IsLow best_effort e = inr refl
non_critical-IsLow (other_class name) e = cc

off_reason : is_low_reason RetrySuppressionReason.disabled ≡ false
unfolding is_low_reason
off_reason = refl

module _ {ℓ} {W : Type ℓ} ⦃f : Float W⦄ where
  tests-Spares :
      (policy : RetrySuppressionPolicy W) (check : RetrySuppressionCheck W)
      → All (Spares (is_non_critical_lane_class check.snapshot.lane_class)) (
          by_failure policy check.failure
          ++ by_pressure policy check.snapshot
          ++ by_hot_key policy check.snapshot check.attempt)
  unfolding by_failure by_pressure by_hot_key suppress_decision is_low_reason
  tests-Spares policy check =
      let low : Bool = is_non_critical_lane_class check.snapshot.lane_class in
      (
        passes _ low,
        (
          passes _ low,
          (
            passes _ low,
            (
              passes _ low,
              (
                low_of policy.suppress_non_critical_when_pressured
                    check.snapshot.pressure.is_pressured low,
                (
                  passes _ low,
                  (
                    passes _ low,
                    (
                      passes _ low,
                      (
                        passes _ low,
                        (
                          passes _ low,
                          (
                            low_of policy.suppress_when_scale_out_recommended
                                check.snapshot.recommended low,
                            tt,
                          ),
                        ),
                      ),
                    ),
                  ),
                ),
              ),
            ),
          ),
        ),
      )

  -- Where the policy has no hook, a retry is suppressed for global pressure or for a recommended
  -- scale-out only on a background or a best-effort lane.
  pub decide_retry_suppression-spares :
      (policy : RetrySuppressionPolicy W) (check : RetrySuppressionCheck W)
      → policy.hook ≡ none
      → is_low_reason (decide_retry_suppression policy check).reason ≡ true
      → IsLow check.snapshot.lane_class
  unfolding decide_retry_suppression
  decide_retry_suppression-spares policy check h low =
      let low_class : Bool = is_non_critical_lane_class check.snapshot.lane_class in
      let tests : List (Bool × RetrySuppressionDecision) =
        by_failure policy check.failure
        ++ by_pressure policy check.snapshot
        ++ by_hot_key policy check.snapshot check.attempt in
      non_critical-IsLow check.snapshot.lane_class (
        answered policy.enabled low_class (first tests)
          (record { suppress = false; reason = RetrySuppressionReason.disabled; message = "" })
          (by_hook policy check)
          (λ d c e. first_low low_class tests (tests-Spares policy check) c e) (off_reason)
          (by_hook-none policy check h) low)
