-- ===== src/Quota/Defs.antt =====
-- The snapshot of internal/core/quota_policy.go and how one is built.
use go_keylane.Base.{
  ℕ, zero, suc, ◌+◌, String, Bool, not, Option, none, some, List, [], ◌∷◌, Result, ok, ◌>>◌,
  require, ltb,
}
use text.Mathlib.Text.{◌==◌ as str_eq}
use go_keylane.Errors.{
  Error, invalid_lane_quota, quota_too_large, invalid_lane, invalid_quota_policy,
}
use go_keylane.Registry.{LaneRegistry, find, lookup_lane, quota_of, name_of, lane_count}

abbrev pub max_lane_quota : ℕ
max_lane_quota = 1024

pub record QuotaPolicySnapshot : Type 0 where
  pub version : ℕ
  pub default_quota : ℕ
  pub lane_quotas : List ℕ

-- The map is in the order of the range loop.
pub record QuotaPolicyInput : Type 0 where
  pub default_quota : ℕ
  pub lane_quotas : List (String × ℕ)

-- `for i := i; i < i+n; i++ { out[i] = f(i) }`
unfoldable pub tabulate {ℓ} : {A : Type ℓ} → (ℕ → A) → ℕ → ℕ → List A
tabulate f i zero = []
tabulate f i (suc n) = f i ∷ tabulate f (i + 1) n

unfoldable pub snapshot_from_registry : LaneRegistry → QuotaPolicySnapshot
unfolding tabulate quota_of lane_count
snapshot_from_registry reg = record {
  version = 0;
  default_quota = 1;
  lane_quotas = tabulate (quota_of reg) 0 (lane_count reg);
}

abbrev pub is_some {ℓ} : {A : Type ℓ} → Option A → Bool
is_some none = Bool.false
is_some (some a) = Bool.true

-- The loop over `policy.LaneQuotas`.
unfoldable pub check_lane_quotas : LaneRegistry → List (String × ℕ) → Result Error (Unit {0})
unfolding lookup_lane
check_lane_quotas reg [] = ok tt
check_lane_quotas reg ((lane, quota) ∷ rest) = do
  require (not (str_eq lane "")) invalid_lane
  require (is_some (lookup_lane reg lane)) invalid_quota_policy
  require (not (ltb quota 1)) invalid_lane_quota
  require (not (ltb max_lane_quota quota)) quota_too_large
  check_lane_quotas reg rest

unfoldable pub quota_for : LaneRegistry → QuotaPolicyInput → ℕ → ℕ
unfolding find name_of
quota_for reg policy i = elim (find (name_of reg i) policy.lane_quotas) [
  | some quota ↦ quota
  | none ↦ policy.default_quota
]

unfoldable pub build_quota_policy_snapshot :
    LaneRegistry → QuotaPolicyInput → Result Error QuotaPolicySnapshot
unfolding check_lane_quotas quota_for tabulate lane_count
build_quota_policy_snapshot reg policy = do
  require (not (ltb policy.default_quota 1)) invalid_lane_quota
  require (not (ltb max_lane_quota policy.default_quota)) quota_too_large
  check_lane_quotas reg policy.lane_quotas
  ok (record {
    version = 0;
    default_quota = policy.default_quota;
    lane_quotas = tabulate (quota_for reg policy) 0 (lane_count reg);
  })
