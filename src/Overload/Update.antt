-- ===== src/Overload/Update.antt =====
-- The publication of an overload policy: UpdateOverloadPolicy and the default policy of
-- internal/core/overload_policy.go.
use go_keylane.Base.{ℕ, ◌+◌, ◌*◌, ◌%◌, ◌^◌, true, [], Result, ok, err, ltb, if◌then◌else◌}
use go_keylane.Base.Ints.{pos}
use go_keylane.Base.Floats.{Float}
use go_keylane.Errors.{Error, stopped}
use go_keylane.Counters.{u64}
use go_keylane.Registry.{LaneRegistry}
use go_keylane.Scheduler.State.{LifecycleState}
use go_keylane.Scheduler.Policy.{is_stopping}
use go_keylane.Retry.Suppression.{LaneClass}
use go_keylane.Overload.Defs.{
  OverloadPolicyInput, OverloadPolicySnapshot, build_overload_policy_snapshot,
}

-- The fields of the scheduler that hold the policy.
pub record OverloadState {ℓ} (W : Type ℓ) : Type ℓ where
  pub overload_version : ℕ
  pub overload_policy : OverloadPolicySnapshot W

module _ {ℓ} {W : Type ℓ} ⦃f : Float W⦄ where
  open f use {ratio}

  unfoldable pub publish_overload_policy :
      OverloadState W → OverloadPolicySnapshot W → OverloadState W × ℕ
  publish_overload_policy s snap =
      let v = u64 (s.overload_version + 1) in
      (record { overload_version = v; overload_policy = record snap { version = v } }, v)

  abbrev published : OverloadState W × ℕ → OverloadState W × Result Error ℕ
  published (s, v) = (s, ok v)

  unfoldable pub update_overload_policy :
      LaneRegistry
      → LifecycleState
      → OverloadState W
      → OverloadPolicyInput W
      → OverloadState W × Result Error ℕ
  unfolding publish_overload_policy
  update_overload_policy reg state s policy = elim (build_overload_policy_snapshot reg policy) [
    | err e ↦ (s, err e)
    | ok snap ↦
        if is_stopping state then (s, err stopped) else published (publish_overload_policy s snap)
  ]

  -- The lane's depth is cut to 32 bits, and is at least 1.
  unfoldable pub default_overload_policy : ℕ → ℕ → OverloadPolicyInput W
  default_overload_policy shard_count queue_size =
      let cut : ℕ = shard_count * queue_size % 2 ^ 32 in
      record {
        default_input = record {
          lane = "";
          class = LaneClass.normal;
          reject_above_ratio = ratio 9 10;
          shed_above_ratio = ratio 1 1;
          degrade_above_ratio = ratio 1 1;
          max_queue_depth = if ltb cut 1 then 1 else cut;
          retry_after = pos 250_000_000;
          min_backoff = pos 100_000_000;
          max_backoff = pos 2_000_000_000;
          jitter = true;
        };
        lanes = [];
      }
