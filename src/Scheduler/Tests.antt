-- ===== src/Scheduler/Tests.antt =====
-- Rounds of internal/core/process_shard.go and updates of internal/core/quota_policy.go.
use go_keylane.Base.{ℕ, ◌≡◌, ◌+◌, refl, ◌∷◌, [], true, false, ok, arith}
use go_keylane.Job.{zero_job}
use go_keylane.LaneQueue.{LaneQueue}
use go_keylane.Shard.{Shard}
use go_keylane.Registry.{LaneRegistry}
use go_keylane.Quota.{QuotaPolicyInput, build_quota_policy_snapshot}
use go_keylane.Scheduler.State.{Scheduler, new_scheduler}
use go_keylane.Scheduler.Process.{Tick, process_shard}
use go_keylane.Scheduler.Batch.{process_shard-inflight}
use go_keylane.Scheduler.Policy.{update_quota_policy_if_version}
use go_keylane.Scheduler.Versions.{one_update_wins}

abbrev two_lanes : LaneRegistry
two_lanes = record { ids = ("b", 1) ∷ ("a", 0) ∷ []; names = "a" ∷ "b" ∷ []; quotas = 1 ∷ 2 ∷ [] }

abbrev two_jobs : LaneQueue
two_jobs = record {
  items = record zero_job { key_hash = 3 } ∷ record zero_job { key_hash = 4 } ∷ [];
  head = 1;
  tail = 1;
  size = 2;
}

abbrev busy : Shard
busy = record {
  ready = true;
  lanes = two_jobs ∷ record { items = zero_job ∷ []; head = 0; tail = 0; size = 0 } ∷ [];
}

abbrev sched : Scheduler
sched = record (new_scheduler 1 1 2 two_lanes) { shards = busy ∷ [] }

abbrev late : ℕ → Tick
late n = record { cancelled = false; started_at = 8; ended_at = 9 }

process_shard-inflight_example : (process_shard sched 0 0 7 late true).inflight ≡ sched.inflight
process_shard-inflight_example = process_shard-inflight sched 0 0 7 late true

abbrev policy : QuotaPolicyInput
policy = record { default_quota = 3; lane_quotas = ("b", 5) ∷ [] }

one_update_wins_example :
    let t = (update_quota_policy_if_version sched policy 0).0 in
    (1 ≡ 0 + 1)
    × (t.quota_policy.version ≡ 1)
    × (t.quota_version ≡ 1)
    × ((w : ℕ) → ¬ ((update_quota_policy_if_version t policy 0).1 ≡ ok w))
unfolding update_quota_policy_if_version new_scheduler build_quota_policy_snapshot
one_update_wins_example = one_update_wins sched policy policy 0 refl (omega arith) refl
