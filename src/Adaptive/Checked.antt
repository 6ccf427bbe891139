-- ===== src/Adaptive/Checked.antt =====
-- What ValidateAdaptiveQuotaPolicy of adaptive_quota.go promises the controller of
-- internal/core/adaptive_quota_controller.go.
use go_keylane.Base.{
  ℕ, ◌≤◌, ◌≡◌, refl, Bool, true, false, not, ◌||◌, String, List, [], ◌∷◌, Result, ok, All, arith,
  if◌then◌else◌,
}
use text.Mathlib.Text.{◌==◌ as str_eq}
use go_keylane.Base.Ints.{ℤ, pos, negsuc, int_ltb, to_nat}
use go_keylane.Base.Floats.{Float}
use go_keylane.Errors.{Error, invalid_lane, invalid_lane_class, invalid_adaptive_quota_config}
use go_keylane.Registry.{LaneRegistry, find}
use go_keylane.Quota.{is_some}
use go_keylane.Quota.Bounds.{require_ok, then_ok}
use go_keylane.Admission.Defs.{is_lane_class, AdmissionPolicySnapshot}
use go_keylane.Adaptive.Defs.{AdaptiveQuotaConfig}
use go_keylane.Adaptive.Resolve.{LaneAdaptivePolicy, is_set, resolve_adaptive_lane_policies}
use go_keylane.Adaptive.Resolving.{HasBounds, InOrder, resolve_adaptive_lane_policies-InOrder}
use go_keylane.Adaptive.Config.{
  AdaptiveQuotaPolicy, ClientConfig, or_positive, seen_policy, check_lane_adaptive_policies,
  check_adaptive_quota_config, validate_adaptive_quota_policy, normalize_adaptive_quota_config,
  default_adaptive_quota_config, adaptive_quota_config_to_core,
}

is_false : (b : Bool) → not b ≡ true → b ≡ false
is_false true h = cc
is_false false h = refl

check_lanes-HasBounds :
    (quotas : List (String × ℕ)) (seen lanes : List LaneAdaptivePolicy)
    → check_lane_adaptive_policies quotas seen lanes ≡ ok tt
    → All HasBounds lanes
unfolding check_lane_adaptive_policies
check_lanes-HasBounds quotas seen [] c = tt
check_lanes-HasBounds quotas seen (lp ∷ rest) c =
    let bad : Error = invalid_adaptive_quota_config in
    let (a₁, c₁) = require_ok (not (str_eq lp.lane "")) invalid_lane _ c in
    let (a₂, c₂) = require_ok (is_some (find lp.lane quotas)) bad _ c₁ in
    let (a₃, c₃) = require_ok (not (seen_policy lp.lane seen)) bad _ c₂ in
    let (a₄, c₄) =
      require_ok (not (is_set lp.class) || is_lane_class lp.class) invalid_lane_class _ c₃ in
    let (a₅, c₅) = require_ok (not (int_ltb lp.min_quota (pos 1))) bad _ c₄ in
    let (a₆, c₆) = require_ok (not (int_ltb lp.max_quota lp.min_quota)) bad _ c₅ in
    let (a₇, c₇) =
      require_ok (not (int_ltb (pos 1024) lp.max_quota)) bad
        (check_lane_adaptive_policies quotas (lp ∷ seen) rest) c₆ in
    (
      (is_false _ a₅, is_false _ a₆, is_false _ a₇),
      check_lanes-HasBounds quotas (lp ∷ seen) rest c₇,
    )

or_positive-pos : (x : ℤ) → 1 ≤ to_nat (or_positive x (pos 1))
or_positive-pos (pos n) = ground arith
or_positive-pos (negsuc n) = omega arith

when_on :
    (b : Bool) (m : Result Error (Unit {0}))
    → b ≡ true
    → (if not b then ok tt else m) ≡ ok tt
    → m ≡ ok tt
when_on true m e c = c
when_on false m e c = cc

module _ {ℓ} {W : Type ℓ} ⦃f : Float W⦄ where
  -- Each number that counts steps is at least 1.
  abbrev pub Steps : AdaptiveQuotaConfig W → Type 0
  Steps cfg = (1 ≤ cfg.increase_step) × (1 ≤ cfg.decrease_step) × (1 ≤ cfg.max_adjustments_per_tick)

  to_core-Steps :
      (cfg : ClientConfig W) (emit : Bool)
      → Steps (adaptive_quota_config_to_core (normalize_adaptive_quota_config cfg) emit)
  unfolding adaptive_quota_config_to_core normalize_adaptive_quota_config
      default_adaptive_quota_config
  to_core-Steps cfg emit = (
    or_positive-pos cfg.increase_step,
    or_positive-pos cfg.decrease_step,
    or_positive-pos cfg.max_adjustments_per_tick,
  )

  -- Where an enabled policy passes the validation, whatever the registry and the admission policy are,
  -- the policy of every lane that the controller works with has bounds in order, from 1 to 1024, and
  -- the steps and the number of adjustments of its configuration are at least 1.
  pub validate_adaptive_quota_policy-InOrder :
      (policy : AdaptiveQuotaPolicy W) (quotas initial : List (String × ℕ)) (reg : LaneRegistry)
      (adm : AdmissionPolicySnapshot W) (emit : Bool)
      → policy.config.enabled ≡ true
      → validate_adaptive_quota_policy policy quotas ≡ ok tt
      → All InOrder (resolve_adaptive_lane_policies reg adm policy.lanes initial)
        × Steps (adaptive_quota_config_to_core (normalize_adaptive_quota_config policy.config) emit)
  unfolding validate_adaptive_quota_policy
  validate_adaptive_quota_policy-InOrder policy quotas initial reg adm emit on c =
      let c₁ = when_on policy.config.enabled _ on c in
      let (a, c₂) =
        then_ok (check_adaptive_quota_config policy.config)
          (check_lane_adaptive_policies quotas [] policy.lanes) c₁ in
      (
        resolve_adaptive_lane_policies-InOrder reg adm policy.lanes initial
            (check_lanes-HasBounds quotas [] policy.lanes c₂),
        to_core-Steps policy.config emit,
      )
