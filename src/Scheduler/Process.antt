-- ===== src/Scheduler/Process.antt =====
-- processShard of internal/core/process_shard.go, in the parts between which other goroutines run: the
-- batch is collected under the shard's lock, each job runs outside it, and the shard is requeued.
-- A job whose `Run` panics ends the process, since no deferred call recovers it.
use go_keylane.Base.{
  ℕ, ◌+◌, ◌-◌, Bool, false, ◌&&◌, ◌||◌, not, Option, none, some, List, [], ◌∷◌, ◌++◌, length,
  get_elem?, set, update, ltb, ◌==◌, if◌then◌else◌,
}
use go_keylane.Job.{InternalJob, RunContext, RunResult}
use go_keylane.Counters.{LaneCounters, record_sample, u64}
use go_keylane.HotKey.{
  observe_dequeue, observe_inflight_start, observe_inflight_end, observe_queue_wait,
}
use go_keylane.Shard.{Shard, sum, drain_lanes, any_work}
use go_keylane.Scheduler.State.{Scheduler, Obs, observe, count_lane}

-- `acquireJobBatch` of internal/core/pool.go: the capacity of the batch that it returns. What the
-- pool holds is `sync.Pool`'s choice, the argument `pooled`.
unfoldable pub acquire_job_batch : ℕ → ℕ → ℕ
acquire_job_batch min_capacity pooled = if ltb pooled min_capacity then min_capacity else pooled

unfoldable pub batch_capacity : Obs → ℕ → ℕ → ℕ
unfolding acquire_job_batch
batch_capacity obs total pooled =
    if obs.disable_pooling then total else acquire_job_batch total pooled

abbrev pub add_lane_inflight : List InternalJob → List ℕ → List ℕ
add_lane_inflight [] counts = counts
add_lane_inflight (job ∷ jobs) counts =
    add_lane_inflight jobs (update counts job.lane_id (λ n. n + 1))

abbrev pub observe_batch : ℕ → ℕ → List InternalJob → Scheduler → Scheduler
observe_batch i now [] s = s
observe_batch i now (job ∷ jobs) s = observe_batch i now jobs (
    observe i (λ t. observe_inflight_start (observe_dequeue t job.key_hash now) job.key_hash now) s)

-- The shard after its lanes were drained into a batch: ready only if there is more work.
abbrev pub drained_shard : Shard → List ℕ → ℕ → Shard × List InternalJob × Bool
drained_shard shard quotas bound =
    let (lanes, batch) = drain_lanes quotas shard.lanes bound [] in
    let has_more = any_work lanes in
    (record { ready = if has_more then shard.ready else false; lanes = lanes }, batch, has_more)

abbrev pub in_flight : ℕ → List InternalJob → Scheduler → Scheduler
in_flight i batch s = record s {
  inflight = s.inflight + length batch;
  shard_inflight = update s.shard_inflight i (λ n. n + length batch);
  lane_inflight = add_lane_inflight batch s.lane_inflight;
}

-- Steps 1 to 3 and the observations after them: the batch, and whether the shard has more.
unfoldable pub collect : Scheduler → ℕ → ℕ → ℕ → Scheduler × List InternalJob × Bool
unfolding batch_capacity drain_lanes any_work sum
collect s i pooled now = elim (get_elem? s.shards i) [
  | none ↦ (s, [], false)
  | some shard ↦
      let quotas = s.quota_policy.lane_quotas in
      let (shard', batch, has_more) =
        drained_shard shard quotas (batch_capacity s.obs (sum quotas) pooled) in
      (
        observe_batch i now batch (in_flight i batch (record s { shards = set s.shards i shard' })),
        batch,
        has_more,
      )
]

-- What the worker reads while it runs one job: whether its context is cancelled, and the clock.
pub record Tick : Type 0 where
  pub cancelled : Bool
  pub started_at : ℕ
  pub ended_at : ℕ

abbrev stamped_wait : Scheduler → InternalJob → Bool
stamped_wait s job = s.obs.enable_queue_wait_timing && not (job.accepted_at == 0)

abbrev tracked_wait : Scheduler → InternalJob → Bool
tracked_wait s job = s.obs.track_queue_wait && not (job.enqueued_at == 0)

-- `jobNeedsWorkerTimestamps`
unfoldable pub job_needs_worker_timestamps : Scheduler → InternalJob → Bool × Bool
job_needs_worker_timestamps s job =
    (stamped_wait s job || tracked_wait s job, s.obs.enable_run_timing || s.obs.hooks_time_runs)

unfoldable pub record_gc_pressure_queue_wait : Scheduler → ℕ → ℕ → ℕ → Scheduler
unfolding record_sample
record_gc_pressure_queue_wait s i lane nanos = record s {
  queue_wait_global = record_sample s.queue_wait_global nanos;
  shard_queue_wait = update s.shard_queue_wait i (λ a. record_sample a nanos);
  lane_counters =
      update s.lane_counters lane
        (λ c. record c { gc_queue_wait = record_sample c.gc_queue_wait nanos });
}

unfoldable pub record_gc_pressure_run_duration : Scheduler → ℕ → ℕ → ℕ → Scheduler
unfolding record_sample
record_gc_pressure_run_duration s i lane nanos = record s {
  run_duration_global = record_sample s.run_duration_global nanos;
  shard_run_duration = update s.shard_run_duration i (λ a. record_sample a nanos);
  lane_counters =
      update s.lane_counters lane (λ c. record c { gc_run = record_sample c.gc_run nanos });
}

-- The two queue-wait samples before the run. The clock does not run back, so the waits are not
-- negative.
unfoldable pub sample_waits : Scheduler → ℕ → InternalJob → ℕ → Scheduler
unfolding record_gc_pressure_queue_wait observe_queue_wait
sample_waits s i job started =
    let s' =
      if stamped_wait s job
      then observe i (λ t. observe_queue_wait t job.key_hash (started - job.accepted_at) started)
          (record_gc_pressure_queue_wait s i job.lane_id (started - job.accepted_at))
      else s in
    if tracked_wait s job
    then record s' {
      lane_counters = update s'.lane_counters job.lane_id (λ c. record c {
        queue_wait_total_nanos = u64 (c.queue_wait_total_nanos + (started - job.enqueued_at));
        queue_wait_count = u64 (c.queue_wait_count + 1);
      });
    }
    else s'

-- The context that the job gets: with worker timing where someone wants it.
unfoldable pub run_context : Scheduler → InternalJob → Tick → RunContext
unfolding job_needs_worker_timestamps
run_context s job tick =
    let (need_wait, need_run) = job_needs_worker_timestamps s job in
    record {
      cancelled = tick.cancelled;
      timing =
          if need_wait || (need_run || job.use_worker_timing)
          then some (record { accepted_at = job.accepted_at; started_at = tick.started_at })
          else none;
    }

-- `job.Run(runCtx)`; no job is queued without a function.
abbrev run_result : Option (RunContext → RunResult) → RunContext → RunResult
run_result none ctx = RunResult.succeeded
run_result (some run) ctx = run ctx

unfoldable pub count_result : RunResult → LaneCounters → LaneCounters
count_result RunResult.succeeded c = record c { completed_total = u64 (c.completed_total + 1) }
count_result RunResult.cancelled c = record c { canceled = u64 (c.canceled + 1) }
count_result RunResult.failed c = record c { failed_total = u64 (c.failed_total + 1) }

-- The deferred function: the job is no longer in flight.
abbrev pub land : ℕ → InternalJob → ℕ → Scheduler → Scheduler
land i job now s =
    observe i (λ t. observe_inflight_end t job.key_hash now)
      (record s {
        inflight = s.inflight - 1;
        shard_inflight = update s.shard_inflight i (λ n. n - 1);
        lane_inflight = update s.lane_inflight job.lane_id (λ n. n - 1);
      })

-- One round of the loop of step 4, for a context that is not cancelled yet.
unfoldable pub run_job : Scheduler → ℕ → InternalJob → Tick → Scheduler
unfolding sample_waits run_context count_result record_gc_pressure_run_duration
run_job s i job tick =
    let result = run_result job.run (run_context s job tick) in
    let s' = count_lane job.lane_id (count_result result) (sample_waits s i job tick.started_at) in
    land i job tick.ended_at (
      if s.obs.enable_run_timing
      then record_gc_pressure_run_duration s' i job.lane_id (tick.ended_at - tick.started_at)
      else s')

-- The loop over the jobs that are left when the context is found cancelled.
unfoldable pub cancel_rest : Scheduler → ℕ → List InternalJob → Scheduler
cancel_rest s i [] = s
cancel_rest s i (job ∷ jobs) =
    cancel_rest
      (count_lane job.lane_id (λ c. record c { canceled = u64 (c.canceled + 1) })
        (record s {
          inflight = s.inflight - 1;
          shard_inflight = update s.shard_inflight i (λ n. n - 1);
          lane_inflight = update s.lane_inflight job.lane_id (λ n. n - 1);
        }))
      i jobs

-- The loop of step 4; the tick of the `j`-th job of the batch is `ticks j`.
unfoldable pub run_batch : Scheduler → ℕ → List InternalJob → (ℕ → Tick) → ℕ → Scheduler
run_batch s i [] ticks j = s
run_batch s i (job ∷ jobs) ticks j =
    let rest = run_batch (run_job s i job (ticks j)) i jobs ticks (j + 1) in
    if (ticks j).cancelled then cancel_rest s i (job ∷ jobs) else rest

-- Step 5: the send, or the way out where the context is cancelled.
unfoldable pub requeue : Scheduler → ℕ → Bool → Bool → Scheduler
requeue s i has_more sends =
    if has_more && sends then record s { ready_ch = s.ready_ch ++ i ∷ [] } else s

-- All of processShard, where no other goroutine runs in between.
unfoldable pub process_shard : Scheduler → ℕ → ℕ → ℕ → (ℕ → Tick) → Bool → Scheduler
unfolding collect run_batch run_job cancel_rest requeue
process_shard s i pooled now ticks sends =
    let (s', batch, has_more) = collect s i pooled now in
    requeue (run_batch s' i batch ticks 0) i has_more sends
