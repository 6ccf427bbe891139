-- ===== src/World/Working.antt =====
-- What a worker's batch, a job's run, and the calls on policies and lifecycle change of the shards and
-- of the ready channel.
use go_keylane.Base.{
  ℕ, ◌≡◌, inl, inr, refl, Bool, false, some, List, [], ◌∷◌, arith, get_elem?, set, if◌then◌else◌,
  Result-cases, Bool-cases,
}
use go_keylane.Job.{InternalJob}
use go_keylane.Shard.{Shard, has_work, sum}
use go_keylane.Quota.{QuotaPolicyInput, build_quota_policy_snapshot}
use go_keylane.Scheduler.State.{Scheduler, state_new, LifecycleState}
use go_keylane.Scheduler.Process.{
  Tick, collect, run_job, cancel_rest, observe_batch, drained_shard, batch_capacity, in_flight,
}
use go_keylane.Scheduler.Lifecycle.{start, begin_stop, finish_stop, start_in, stop_in}
use go_keylane.Scheduler.Policy.{update_quota_policy, is_stopping}

-- Neither the shards nor the channel changed.
abbrev pub Untouched : Scheduler → Scheduler → Type 0
Untouched s s' = (s'.shards ≡ s.shards) × (s'.ready_ch ≡ s.ready_ch)

observe_batch-Untouched :
    (i now : ℕ) (jobs : List InternalJob) (s : Scheduler) → Untouched s (observe_batch i now jobs s)
observe_batch-Untouched i now [] s = (refl, refl)
observe_batch-Untouched i now (job ∷ jobs) s = observe_batch-Untouched i now jobs _

pub run_job-Untouched :
    (s : Scheduler) (i : ℕ) (job : InternalJob) (tick : Tick) → Untouched s (run_job s i job tick)
unfolding run_job
run_job-Untouched s i job tick = ground arith

pub cancel_rest-Untouched :
    (jobs : List InternalJob) (i : ℕ) (s : Scheduler) → Untouched s (cancel_rest s i jobs)
unfolding cancel_rest
cancel_rest-Untouched [] i s = (refl, refl)
cancel_rest-Untouched (job ∷ jobs) i s = cancel_rest-Untouched jobs i _

start_in-Untouched : (st : LifecycleState) (s : Scheduler) → Untouched s (start_in st s).0
start_in-Untouched state_new s = (refl, refl)
start_in-Untouched _ s = (refl, refl)

pub start-Untouched : (s : Scheduler) → Untouched s (start s).0
unfolding start
start-Untouched s = start_in-Untouched s.state s

stop_in-Untouched : (st : LifecycleState) (s : Scheduler) → Untouched s (stop_in st s).0
stop_in-Untouched state_new s = (refl, refl)
stop_in-Untouched _ s = (refl, refl)

pub begin_stop-Untouched : (s : Scheduler) → Untouched s (begin_stop s).0
unfolding begin_stop
begin_stop-Untouched s = stop_in-Untouched s.state s

pub finish_stop-Untouched : (s : Scheduler) → Untouched s (finish_stop s)
unfolding finish_stop
finish_stop-Untouched s = (refl, refl)

pub update_quota_policy-Untouched :
    (s : Scheduler) (policy : QuotaPolicyInput) → Untouched s (update_quota_policy s policy).0
unfolding update_quota_policy
update_quota_policy-Untouched s policy =
    elim (Result-cases (build_quota_policy_snapshot s.lane_reg policy)) [
      | inr (x, e) ↦ rw (e, update_quota_policy) (refl, refl)
      | inl (snap, e) ↦ elim (Bool-cases (is_stopping s.state)) [
        | inl b ↦ rw (e, b, update_quota_policy) (refl, refl)
        | inr b ↦ rw (e, b, update_quota_policy) (refl, refl)
      ]
    ]

-- The shard after its batch was collected: ready only where it was and more work is left.
pub record Collects (s : Scheduler) (i : ℕ) (old : Shard) (r : Scheduler × List InternalJob × Bool)
    : Type 0 where
  pub new : Shard
  pub stored : r.0.shards ≡ set s.shards i new
  pub same_channel : r.0.ready_ch ≡ s.ready_ch
  pub has_more : r.2 ≡ has_work new
  pub ready : new.ready ≡ (if r.2 then old.ready else false)

pub collect-Collects :
    (s : Scheduler) (i pooled now : ℕ) (old : Shard)
    → get_elem? s.shards i ≡ some old
    → Collects s i old (collect s i pooled now)
unfolding collect has_work
collect-Collects s i pooled now old e =
    let quotas = s.quota_policy.lane_quotas in
    let r = drained_shard old quotas (batch_capacity s.obs (sum quotas) pooled) in
    let kept =
      observe_batch-Untouched i now r.1
        (in_flight i r.1 (record s { shards = set s.shards i r.0 })) in
    rw (e, collect)
      (record { new = r.0; stored = kept.0; same_channel = kept.1; has_more = refl; ready = refl })
