-- ===== src/Scheduler/Batch.antt =====
-- The batch that a worker collects, and the in-flight counts around a whole round of processShard.
use go_keylane.Base.{
  ℕ, ◌+◌, ◌-◌, ◌≡◌, ◌≤◌, ◌∙◌, refl, ap, Bool, false, some, List, [], ◌∷◌, map, length, get_elem?,
  set, arith, All, if◌then◌else◌, Option-cases, Bool-cases, inl, inr,
}
use go_keylane.Job.{InternalJob}
use go_keylane.LaneQueue.Contents.{contents, IsValid}
use go_keylane.Shard.{Shard, sum, any_work}
use go_keylane.Shard.Draining.{taken, kept, drain_lanes-Drained}
use go_keylane.Scheduler.State.{Scheduler, Obs}
use go_keylane.Scheduler.Process.{
  Tick, batch_capacity, observe_batch, drained_shard, in_flight, collect, run_job, cancel_rest,
  run_batch, requeue, process_shard,
}

batch_capacity-ge : (obs : Obs) (total pooled : ℕ) → total ≤ batch_capacity obs total pooled
unfolding batch_capacity
batch_capacity-ge obs total pooled = ground arith

-- What a round takes from a shard and leaves in it.
pub record Round (s : Scheduler) (i : ℕ) (old : Shard) (r : Scheduler × List InternalJob × Bool)
    : Type 0 where
  pub new : Shard
  pub stored : r.0.shards ≡ set s.shards i new
  pub batch : r.1 ≡ taken s.quota_policy.lane_quotas (map contents old.lanes)
  pub left : map contents new.lanes ≡ kept s.quota_policy.lane_quotas (map contents old.lanes)
  pub valid : All IsValid new.lanes
  pub more : r.2 ≡ any_work new.lanes
  pub ready : new.ready ≡ (if r.2 then old.ready else false)

observe_batch-shards :
    (i now : ℕ) (jobs : List InternalJob) (s : Scheduler)
    → (observe_batch i now jobs s).shards ≡ s.shards
observe_batch-shards i now [] s = refl
observe_batch-shards i now (job ∷ jobs) s = observe_batch-shards i now jobs _

-- A worker takes from each lane of a shard, in the order of the lanes, its quota of the oldest jobs or
-- all that the lane holds, whatever capacity the pooled batch has; the rest stays in order, and the
-- shard stays ready only if something is left.
pub collect-Round :
    (s : Scheduler) (i pooled now : ℕ) (old : Shard)
    → get_elem? s.shards i ≡ some old
    → All IsValid old.lanes
    → Round s i old (collect s i pooled now)
unfolding collect
collect-Round s i pooled now old e v =
    let quotas = s.quota_policy.lane_quotas in
    let bound = batch_capacity s.obs (sum quotas) pooled in
    let r = drained_shard old quotas bound in
    let d =
      drain_lanes-Drained quotas old.lanes bound [] v
        (omega (arith, batch_capacity-ge s.obs (sum quotas) pooled)) in
    rw (e, collect)
      (record {
        new = r.0;
        stored =
            observe_batch-shards i now r.1
              (in_flight i r.1 (record s { shards = set s.shards i r.0 }));
        batch = d.moved;
        left = d.left;
        valid = d.valid;
        more = refl;
        ready = refl;
      })

observe_batch-inflight :
    (i now : ℕ) (jobs : List InternalJob) (s : Scheduler)
    → (observe_batch i now jobs s).inflight ≡ s.inflight
observe_batch-inflight i now [] s = refl
observe_batch-inflight i now (job ∷ jobs) s = observe_batch-inflight i now jobs _

pub collect-inflight :
    (s : Scheduler) (i pooled now : ℕ)
    → (collect s i pooled now).0.inflight ≡ s.inflight + length (collect s i pooled now).1
unfolding collect
collect-inflight s i pooled now = elim (Option-cases (get_elem? s.shards i)) [
  | inl e ↦ rw (e, collect) (omega arith)
  | inr (old, e) ↦
      let quotas = s.quota_policy.lane_quotas in
      let r = drained_shard old quotas (batch_capacity s.obs (sum quotas) pooled) in
      rw (e, collect)
        (observe_batch-inflight i now r.1
          (in_flight i r.1 (record s { shards = set s.shards i r.0 })))
]

pub run_job-inflight :
    (s : Scheduler) (i : ℕ) (job : InternalJob) (tick : Tick)
    → (run_job s i job tick).inflight ≡ s.inflight - 1
unfolding run_job
run_job-inflight s i job tick = ground arith

pub cancel_rest-inflight :
    (jobs : List InternalJob) (i : ℕ) (s : Scheduler)
    → (cancel_rest s i jobs).inflight ≡ s.inflight - length jobs
unfolding cancel_rest
cancel_rest-inflight [] i s = omega arith
cancel_rest-inflight (job ∷ jobs) i s = cancel_rest-inflight jobs i _ ∙ omega arith

run_batch-inflight :
    (jobs : List InternalJob) (i : ℕ) (ticks : ℕ → Tick) (s : Scheduler) (j : ℕ)
    → (run_batch s i jobs ticks j).inflight ≡ s.inflight - length jobs
unfolding run_batch
run_batch-inflight [] i ticks s j = omega arith
run_batch-inflight (job ∷ jobs) i ticks s j = elim (Bool-cases (ticks j).cancelled) [
  | inl c ↦ rw c (cancel_rest-inflight (job ∷ jobs) i s)
  | inr c ↦ simp c (
      run_batch-inflight jobs i ticks (run_job s i job (ticks j)) (j + 1)
      ∙ ap (λ n. n - length jobs) (run_job-inflight s i job (ticks j))
      ∙ omega arith)
]

requeue-inflight :
    (s : Scheduler) (i : ℕ) (has_more sends : Bool)
    → (requeue s i has_more sends).inflight ≡ s.inflight
unfolding requeue
requeue-inflight s i has_more sends = ground arith

-- A whole round leaves the number of in-flight jobs as it found it: each job of the batch is counted
-- in once and out once, whether it runs or is given up because the context was cancelled before it.
pub process_shard-inflight :
    (s : Scheduler) (i pooled now : ℕ) (ticks : ℕ → Tick) (sends : Bool)
    → (process_shard s i pooled now ticks sends).inflight ≡ s.inflight
unfolding process_shard
process_shard-inflight s i pooled now ticks sends =
    let (s', batch, has_more) = collect s i pooled now in
    requeue-inflight (run_batch s' i batch ticks 0) i has_more sends
    ∙ run_batch-inflight batch i ticks s' 0
    ∙ omega (arith, collect-inflight s i pooled now)
