-- ===== src/Admission/Build.antt =====
-- What buildAdmissionPolicySnapshot of internal/core/admission_policy.go promises: an entry per lane,
-- a depth of at least 1, and a default policy that it accepts.
use go_keylane.Base.{ℕ, ◌*◌, ◌%◌, ◌^◌, ◌≡◌, refl, false, ok, arith}
use go_keylane.Base.Floats.{Float, IsExact}
use go_keylane.Registry.{LaneRegistry}
use go_keylane.Overload.Default.{accepted, compared, deep_enough}
use go_keylane.Admission.Defs.{
  AdmissionPolicySnapshot, validate_reject_ratio, validate_admission_entry, check_lane_policies,
  build_admission_policy_snapshot, default_admission_policy,
}

module _ {ℓ} {W : Type ℓ} ⦃f : Float W⦄ (laws : IsExact W) where
  default_is_valid :
      (shards size : ℕ)
      → validate_admission_entry {W = W}
          (default_admission_policy {W = W} shards size).default_entry
        ≡ ok tt
  unfolding validate_admission_entry validate_reject_ratio default_admission_policy
  default_is_valid shards size =
      rw
        (
          compared laws 9 9 0 0 false (omega arith) (omega arith) (omega arith) (omega arith) refl,
          compared laws 1 0 9 9 false (omega arith) (omega arith) (omega arith) (omega arith) refl,
          deep_enough (shards * size % 2 ^ 32),
        )
        refl

  -- For every registry, number of shards and queue size the default admission policy is accepted.
  pub default_admission_policy-accepted :
      (reg : LaneRegistry) (shards size : ℕ)
      → (snap : AdmissionPolicySnapshot W) × (build_admission_policy_snapshot {W = W} reg
            (default_admission_policy {W = W} shards size)
          ≡ ok snap)
  unfolding build_admission_policy_snapshot default_admission_policy check_lane_policies
  default_admission_policy-accepted reg shards size =
      accepted
        (validate_admission_entry {W = W}
          (default_admission_policy {W = W} shards size).default_entry)
        _ (default_is_valid shards size) refl
