-- ===== src/Scheduler/Enqueue.antt =====
-- Enqueue and TryEnqueue of internal/core/scheduler.go. Both hold the scheduler's read lock, so the
-- lifecycle state cannot change under them; the clock is read once, at `now`.
use go_keylane.Base.{ℕ, Bool, Option, none, some, Result, ok, err, length, get_elem?, set}
use go_keylane.Errors.{Error, not_started, stopped, invalid_lane_id}
use go_keylane.Job.{InternalJob}
use go_keylane.Counters.{
  record_lane_admission_attempt, record_lane_admission_rejected, record_lane_admission_result,
}
use go_keylane.HotKey.{observe_submit, observe_enqueue}
use go_keylane.Shard.{enqueue_into_shard}
use go_keylane.Scheduler.State.{
  Scheduler, LifecycleState, state_new, state_running, state_stopping, state_stopped, observe,
  count_lane, route_shard_id,
}

abbrev pub error_of {ℓ} : {A : Type ℓ} → Result Error A → Option Error
error_of (ok a) = none
error_of (err e) = some e

-- `observeEnqueue`, if enqueueIntoShard returned no error.
abbrev observe_stored : InternalJob → ℕ → Result Error Bool → Scheduler → Scheduler
observe_stored job now (err e) s = s
observe_stored job now (ok became_ready) s =
    observe (route_shard_id job.key_hash (length s.shards))
      (λ t. observe_enqueue t job.key_hash job.lane_id job.raw_key now) s

abbrev routed : ℕ → Result Error Bool → Result Error (ℕ × Bool)
routed i (ok became_ready) = ok (i, became_ready)
routed i (err e) = err e

-- The admission that both calls share, after the test of the state. A lane's id comes from the registry,
-- so that the lane and its counters exist: the error for another one stands for a panic of the source.
unfoldable pub admit : Scheduler → InternalJob → ℕ → Scheduler × Result Error (ℕ × Bool)
unfolding route_shard_id
admit s job now =
    let i = route_shard_id job.key_hash (length s.shards) in
    let s' = observe i (λ t. observe_submit t job.key_hash job.lane_id job.raw_key now) s in
    elim (get_elem? s.shards i) [
      | none ↦ (s', err invalid_lane_id)
      | some shard ↦
          let (shard', r) =
            enqueue_into_shard shard job now s.obs.enable_queue_wait_timing
              s.obs.track_queue_wait in
          (
            count_lane job.lane_id (record_lane_admission_result (error_of r))
                (observe_stored job now r (record s' { shards = set s.shards i shard' })),
            routed i r,
          )
    ]

abbrev refuse : Scheduler → InternalJob → Error → Scheduler × Result Error (ℕ × Bool)
refuse s job e = (count_lane job.lane_id record_lane_admission_rejected s, err e)

-- Before a start the job is queued all the same.
unfoldable pub enqueue_in :
    LifecycleState → Scheduler → InternalJob → ℕ → Scheduler × Result Error (ℕ × Bool)
unfolding admit
enqueue_in state_stopping s job now = refuse s job stopped
enqueue_in state_stopped s job now = refuse s job stopped
enqueue_in _ s job now = admit s job now

unfoldable pub enqueue : Scheduler → InternalJob → ℕ → Scheduler × Result Error (ℕ × Bool)
unfolding enqueue_in
enqueue s job now =
    enqueue_in s.state (count_lane job.lane_id record_lane_admission_attempt s) job now

unfoldable pub try_enqueue_in :
    LifecycleState → Scheduler → InternalJob → ℕ → Scheduler × Result Error (ℕ × Bool)
unfolding admit
try_enqueue_in state_new s job now = refuse s job not_started
try_enqueue_in state_running s job now = admit s job now
try_enqueue_in _ s job now = refuse s job stopped

unfoldable pub try_enqueue : Scheduler → InternalJob → ℕ → Scheduler × Result Error (ℕ × Bool)
unfolding try_enqueue_in
try_enqueue s job now =
    try_enqueue_in s.state (count_lane job.lane_id record_lane_admission_attempt s) job now
