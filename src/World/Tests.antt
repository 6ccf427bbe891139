-- ===== src/World/Tests.antt =====
-- Runs of the whole queue: one shard, one lane of quota 1, and one worker.
use go_keylane.Base.{◌≡◌, ◌⊎◌, ◌≤◌, refl, ◌∷◌, [], arith, true, false}
use go_keylane.Job.{InternalJob, zero_job}
use go_keylane.Scheduler.Process.{Tick, collect, run_job}
use go_keylane.LaneQueue.{stamp, new_lane_queue, push, pop, pop_n, stamp_newest_accepted}
use go_keylane.Shard.{Shard, has_work, total_depth, enqueue_into_shard}
use go_keylane.Registry.{LaneRegistry}
use go_keylane.Scheduler.State.{Obs, default_obs, new_scheduler, configure_hot_key}
use go_keylane.HotKey.{HotKeyConfig}
use go_keylane.Scheduler.Enqueue.{enqueue}
use go_keylane.Scheduler.Lifecycle.{start}
use go_keylane.World.Defs.{
  World, Steps, HasRoom, submitter, here, next, stay, step, submit, start_up, notify, receive,
  gather, run, received, running, after_enqueue, after_collect, with_worker, send,
}
use go_keylane.World.Tokens.{tokens}
use go_keylane.Scheduler.Batch.{Round}
use go_keylane.World.Validity.{collect_in_order}
use go_keylane.World.Initial.{initial, no_lost_wakeup}
use go_keylane.World.Capacity.{send-HasRoom, requeue-HasRoom}
use go_keylane.World.Abandoned.{abandoned_shard_stuck}

abbrev one_lane : LaneRegistry
one_lane = record { ids = ("a", 0) ∷ []; names = "a" ∷ []; quotas = 1 ∷ [] }

-- Queue waits are tracked, and four hot keys on each shard.
abbrev timed : Obs
timed = record default_obs { track_queue_wait = true }

abbrev tracked : HotKeyConfig
tracked = record {
  enabled = true;
  max_tracked_keys_per_shard = 4;
  detection_window = 1000;
  expose_raw_key = false;
}

abbrev new_world : World
unfolding configure_hot_key
new_world = initial 1 1 2 one_lane timed tracked

abbrev job : InternalJob
job = record zero_job { key_hash = 12 }

abbrev tick : Tick
tick = record { cancelled = false; started_at = 8; ended_at = 9 }

abbrev started : World
started = record new_world { sched = (start new_world.sched).0 }

-- After a start and a Submit whose send is still to come.
abbrev submitted : World
submitted = after_enqueue submitter started (enqueue started.sched job 5)

submitted-Steps : Steps new_world submitted
submitted-Steps = next (next here start_up) (submit job 5)

-- Then a second job, the send, and the worker's batch of one job, which is run.
abbrev twice : World
twice = after_enqueue submitter submitted (enqueue submitted.sched job 6)

abbrev notified : World
notified = record twice { sched = send twice.sched 0; senders = [] }

abbrev taken : World
taken =
    with_worker (record notified { sched = record (notified.sched) { ready_ch = [] } }) 0
      (received 0)

abbrev gathered : World
gathered = after_collect taken 0 0 (collect taken.sched 0 0 7)

abbrev ran : World
ran =
    with_worker (record gathered { sched = run_job gathered.sched 0 (stamp 5 true true job) tick })
      0 (running 0 [] true)

ran-Steps : Steps new_world ran
unfolding enqueue start new_scheduler configure_hot_key enqueue_into_shard push new_lane_queue
    stamp_newest_accepted collect pop_n pop run_job
ran-Steps =
    let s₁ : Steps new_world twice = next submitted-Steps (submit job 6) in
    let s₂ : Steps new_world notified = next s₁ (notify [] [] (submitter 0) refl (omega arith)) in
    let s₃ : Steps new_world taken = next s₂ (receive 0 0 [] refl refl) in
    let s₄ : Steps new_world gathered = next s₃ (gather 0 0 0 7 refl (omega arith)) in
    next s₄ (run 0 0 (stamp 5 true true job) [] true tick refl)

abbrev submitted_shard : Shard
submitted_shard = record {
  ready = true;
  lanes =
      record { items = stamp 5 true true job ∷ zero_job ∷ []; head = 0; tail = 1; size = 1 } ∷ [];
}

no_lost_wakeup_example :
    ((submitted_shard.ready ≡ true) × (tokens 0 submitted ≡ 1))
    ⊎ ((submitted_shard.ready ≡ false)
        × (has_work submitted_shard ≡ false)
        × (tokens 0 submitted ≡ 0))
unfolding enqueue start new_scheduler configure_hot_key enqueue_into_shard push new_lane_queue
    stamp_newest_accepted collect pop_n pop run_job
no_lost_wakeup_example =
    no_lost_wakeup 1 1 2 one_lane timed tracked submitted-Steps 0 submitted_shard refl

send-HasRoom_example : HasRoom submitted.sched
unfolding enqueue start new_scheduler configure_hot_key enqueue_into_shard push new_lane_queue
    stamp_newest_accepted collect pop_n pop run_job
send-HasRoom_example =
    send-HasRoom 1 1 2 one_lane timed tracked submitted-Steps [] [] (submitter 0) refl

requeue-HasRoom_example : HasRoom ran.sched
unfolding enqueue start new_scheduler configure_hot_key enqueue_into_shard push new_lane_queue
    stamp_newest_accepted collect pop_n pop run_job
requeue-HasRoom_example = requeue-HasRoom 1 1 2 one_lane timed tracked ran-Steps 0 0 [] refl

collect_in_order_example : Round submitted.sched 0 submitted_shard (collect submitted.sched 0 0 7)
unfolding enqueue start new_scheduler configure_hot_key enqueue_into_shard push new_lane_queue
    stamp_newest_accepted collect pop_n pop run_job
collect_in_order_example =
    collect_in_order 1 1 2 one_lane timed tracked submitted-Steps 0 0 7 submitted_shard refl

-- The sender is gone, and then a second job is submitted.
abbrev abandoned : World
abandoned = record submitted { senders = [] }

abbrev resubmitted : World
resubmitted = after_enqueue submitter abandoned (enqueue abandoned.sched job 6)

abbrev stranded_shard : Shard
stranded_shard = record {
  ready = true;
  lanes =
      record {
        items = stamp 5 true true job ∷ stamp 6 true true job ∷ [];
        head = 0;
        tail = 0;
        size = 2;
      }
      ∷ [];
}

abandoned_shard_stuck_example :
    (stranded_shard.ready ≡ true)
    × (tokens 0 resubmitted ≡ 0)
    × (total_depth submitted_shard ≤ total_depth stranded_shard)
unfolding enqueue start new_scheduler configure_hot_key enqueue_into_shard push new_lane_queue
    stamp_newest_accepted collect pop_n pop run_job
abandoned_shard_stuck_example =
    abandoned_shard_stuck 1 1 2 one_lane timed tracked submitted-Steps [] [] 0 submitted_shard
      stranded_shard refl refl (step stay (submit job 6)) refl
