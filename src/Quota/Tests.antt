-- ===== src/Quota/Tests.antt =====
-- A policy that buildQuotaPolicySnapshot of internal/core/quota_policy.go accepts.
use go_keylane.Base.{◌≡◌, refl, ◌∷◌, [], All, length}
use go_keylane.Registry.{LaneRegistry, lane_count}
use go_keylane.Quota.Defs.{QuotaPolicyInput, QuotaPolicySnapshot, build_quota_policy_snapshot}
use go_keylane.Quota.Bounds.{InBounds, build_quota_policy_snapshot-InBounds}

abbrev two_lanes : LaneRegistry
two_lanes = record { ids = ("b", 1) ∷ ("a", 0) ∷ []; names = "a" ∷ "b" ∷ []; quotas = 1 ∷ 2 ∷ [] }

abbrev policy : QuotaPolicyInput
policy = record { default_quota = 3; lane_quotas = ("b", 1024) ∷ [] }

abbrev built : QuotaPolicySnapshot
built = record { version = 0; default_quota = 3; lane_quotas = 3 ∷ 1024 ∷ [] }

build_quota_policy_snapshot-InBounds_example :
    (built.version ≡ 0)
    × (length built.lane_quotas ≡ lane_count two_lanes)
    × InBounds built.default_quota
    × All InBounds built.lane_quotas
unfolding build_quota_policy_snapshot
build_quota_policy_snapshot-InBounds_example =
    build_quota_policy_snapshot-InBounds two_lanes policy refl
