-- ===== src/Scheduler/Policy.antt =====
-- The updates of internal/core/quota_policy.go. The state is read under the scheduler's lock and the
-- snapshot is published under the quota lock.
use go_keylane.Base.{ℕ, ◌+◌, Bool, true, false, Result, ok, err, ◌==◌, if◌then◌else◌}
use go_keylane.Errors.{Error, stopped, quota_policy_version_conflict}
use go_keylane.Counters.{u64}
use go_keylane.Quota.{QuotaPolicySnapshot, QuotaPolicyInput, build_quota_policy_snapshot}
use go_keylane.Scheduler.State.{Scheduler, LifecycleState, state_stopping, state_stopped}

abbrev pub is_stopping : LifecycleState → Bool
is_stopping state_stopping = true
is_stopping state_stopped = true
is_stopping _ = false

unfoldable pub publish_quota_policy : Scheduler → QuotaPolicySnapshot → Scheduler × ℕ
publish_quota_policy s snap =
    let v = u64 (s.quota_version + 1) in
    (record s { quota_version = v; quota_policy = record snap { version = v } }, v)

abbrev published : Scheduler × ℕ → Scheduler × Result Error ℕ
published (s, v) = (s, ok v)

unfoldable pub update_quota_policy : Scheduler → QuotaPolicyInput → Scheduler × Result Error ℕ
unfolding publish_quota_policy
update_quota_policy s policy = elim (build_quota_policy_snapshot s.lane_reg policy) [
  | err e ↦ (s, err e)
  | ok snap ↦
      if is_stopping s.state then (s, err stopped) else published (publish_quota_policy s snap)
]

unfoldable pub update_quota_policy_if_version :
    Scheduler → QuotaPolicyInput → ℕ → Scheduler × Result Error ℕ
unfolding publish_quota_policy
update_quota_policy_if_version s policy expected =
    elim (build_quota_policy_snapshot s.lane_reg policy) [
      | err e ↦ (s, err e)
      | ok snap ↦
          if is_stopping s.state
          then (s, err stopped)
          else if s.quota_policy.version == expected
          then published (publish_quota_policy s snap)
          else (s, err quota_policy_version_conflict)
    ]
