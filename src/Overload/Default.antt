-- ===== src/Overload/Default.antt =====
-- The default overload policy of internal/core/overload_policy.go passes its validation, so that
-- initOverloadPolicy does not panic.
use go_keylane.Base.{
  ℕ, suc, ◌*◌, ◌%◌, ◌^◌, ◌≤◌, ◌≡◌, refl, ◌∙◌, Bool, false, Result, ok, ◌>>◌, ltb, arith,
  if◌then◌else◌,
}
use go_keylane.Base.Floats.{Float, IsExact}
use go_keylane.Registry.{LaneRegistry}
use go_keylane.Errors.{Error}
use go_keylane.Overload.Defs.{
  OverloadPolicySnapshot, validate_lane_overload_policy_input, validate_overload_ratio,
  validate_backoff_durations, check_lanes, build_overload_policy_snapshot,
}
use go_keylane.Overload.Update.{default_overload_policy}

pub deep_enough : (cut : ℕ) → ltb (if ltb cut 1 then 1 else cut) 1 ≡ false
deep_enough cut = ground arith

pub accepted {κ} :
    {A : Type κ} (m : Result Error (Unit {0})) (n : Result Error A) {a : A}
    → m ≡ ok tt
    → n ≡ ok a
    → (b : A) × ((m >> n) ≡ ok b)
accepted m n {a} e h = (a, rw e h)

module _ {ℓ} {W : Type ℓ} ⦃f : Float W⦄ (laws : IsExact W) where
  pub compared :
      (m n k l : ℕ) (b : Bool)
      → m ≤ 1000
      → suc n ≤ 1000
      → k ≤ 1000
      → suc l ≤ 1000
      → ltb (m * suc l) (k * suc n) ≡ b
      → f.lt (f.ratio m (suc n)) (f.ratio k (suc l)) ≡ b
  compared m n k l b h₁ h₂ h₃ h₄ e = laws.lt-ratio m n k l h₁ h₂ h₃ h₄ ∙ e

  default_is_valid :
      (reg : LaneRegistry) (shards size : ℕ)
      → validate_lane_overload_policy_input {W = W}
          (default_overload_policy {W = W} shards size).default_input
          reg
          false
        ≡ ok tt
  unfolding validate_lane_overload_policy_input validate_overload_ratio validate_backoff_durations
      default_overload_policy
  default_is_valid reg shards size =
      rw
        (
          compared 9 9 0 0 false (omega arith) (omega arith) (omega arith) (omega arith) refl,
          compared 1 0 9 9 false (omega arith) (omega arith) (omega arith) (omega arith) refl,
          compared 1 0 0 0 false (omega arith) (omega arith) (omega arith) (omega arith) refl,
          compared 1 0 1 0 false (omega arith) (omega arith) (omega arith) (omega arith) refl,
          deep_enough (shards * size % 2 ^ 32),
        )
        refl

  -- For every registry, number of shards and queue size the default policy is accepted.
  pub default_overload_policy-accepted :
      (reg : LaneRegistry) (shards size : ℕ)
      → (snap : OverloadPolicySnapshot W) × (build_overload_policy_snapshot {W = W} reg
            (default_overload_policy {W = W} shards size)
          ≡ ok snap)
  unfolding build_overload_policy_snapshot default_overload_policy check_lanes
  default_overload_policy-accepted reg shards size =
      accepted
        (validate_lane_overload_policy_input {W = W}
          (default_overload_policy {W = W} shards size).default_input reg false)
        _ (default_is_valid reg shards size) refl
