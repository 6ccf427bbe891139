-- ===== src/World/Storing.antt =====
-- What an enqueue, a batch and a job's run change of the shards and of the ready channel.
use go_keylane.Base.{
  ℕ, zero, suc, ◌+◌, ◌≡◌, ◌⊎◌, inl, inr, refl, ap, Bool, true, not, some, List, [], ◌∷◌, Result, ok,
  err, arith, length, get_elem?, set, update, set_same, Option-cases, Result-cases,
}
use go_keylane.Errors.{Error, invalid_lane_id, stopped, not_started}
use go_keylane.Job.{InternalJob}
use go_keylane.LaneQueue.{LaneQueue, push, stamp_newest_accepted}
use go_keylane.Shard.{Shard, enqueue_into_shard, total_depth, total_depths, stamped}
use go_keylane.Scheduler.State.{
  Scheduler, route_shard_id, LifecycleState, state_new, state_running, state_stopping,
  state_stopped, count_lane,
}
use go_keylane.Counters.{record_lane_admission_attempt}
use go_keylane.Scheduler.Enqueue.{admit, enqueue, try_enqueue, enqueue_in, try_enqueue_in}

push-size : (q q' : LaneQueue) (job : InternalJob) → push q job ≡ ok q' → q'.size ≡ q.size + 1
unfolding push
push-size q q' job e = ground arith

stamped-size : (q : LaneQueue) (now : ℕ) (a b : Bool) → (stamped q now a b).size ≡ q.size
unfolding stamped stamp_newest_accepted
stamped-size q now a b = ground arith

total_depths-update :
    (qs : List LaneQueue) (i : ℕ) (q q' : LaneQueue)
    → get_elem? qs i ≡ some q
    → q'.size ≡ q.size + 1
    → total_depths (update qs i (λ _. q')) ≡ total_depths qs + 1
unfolding total_depths
total_depths-update [] i q q' f e = cc
total_depths-update (x ∷ qs) zero q q' f e =
    let same : x ≡ q = cc in omega (arith, ap (λ (y : LaneQueue). y.size) same)
total_depths-update (x ∷ qs) (suc i) q q' f e = omega (arith, total_depths-update qs i q q' f e)

-- The outcome of enqueueIntoShard on any shard.
abbrev pub Outcome : Shard → Shard × Result Error Bool → Type 0
Outcome old r =
    ((e : Error) × (r ≡ (old, err e)))
    ⊎ ((new : Shard) × (r ≡ (new, ok (not old.ready)))
        × (new.ready ≡ true)
        × (total_depth new ≡ total_depth old + 1))

pub enqueue_into_shard-Outcome :
    (s : Shard) (job : InternalJob) (now : ℕ) (a b : Bool)
    → Outcome s (enqueue_into_shard s job now a b)
unfolding enqueue_into_shard total_depth
enqueue_into_shard-Outcome s job now a b = elim (Option-cases (get_elem? s.lanes job.lane_id)) [
  | inl e ↦ inl (invalid_lane_id, rw (e, enqueue_into_shard))
  | inr (q, e) ↦ elim (Result-cases (push q job)) [
    | inl (q', p) ↦ inr (
      record { ready = true; lanes = update s.lanes job.lane_id (λ _. stamped q' now a b) },
      rw (e, p, enqueue_into_shard),
      refl,
      total_depths-update s.lanes job.lane_id q (stamped q' now a b) e
          (omega (arith, stamped-size q' now a b, push-size q q' job p)),
    )
    | inr (x, p) ↦ inl (x, rw (e, p, enqueue_into_shard))
  ]
]

-- The outcome of an admission: a refusal leaves the shards alone, and an admission makes one shard
-- ready and tells whether it was not.
abbrev pub Stored : Scheduler → Scheduler × Result Error (ℕ × Bool) → Type 0
Stored s r =
    (r.0.ready_ch ≡ s.ready_ch)
    × (((e : Error) × (r.1 ≡ err e) × (r.0.shards ≡ s.shards))
        ⊎ ((i : ℕ) × (old : Shard) × (new : Shard) × (r.1 ≡ ok (i, not old.ready))
            × (get_elem? s.shards i ≡ some old)
            × (r.0.shards ≡ set s.shards i new)
            × (new.ready ≡ true)
            × (total_depth new ≡ total_depth old + 1)))

pub admit-Stored : (s : Scheduler) (job : InternalJob) (now : ℕ) → Stored s (admit s job now)
unfolding admit
admit-Stored s job now =
    elim (Option-cases (get_elem? s.shards (route_shard_id job.key_hash (length s.shards)))) [
      | inl e ↦ rw (e, admit) (refl, inl (invalid_lane_id, refl, refl))
      | inr (old, e) ↦
          elim (enqueue_into_shard-Outcome old job now s.obs.enable_queue_wait_timing
            s.obs.track_queue_wait) [
              | inl (x, o) ↦ rw (e, o, admit) (refl, inl (x, refl, set_same s.shards _ e))
              | inr (new, o, ready, deeper) ↦
                  rw (e, o, admit)
                    (
                      refl,
                      inr (
                        route_shard_id job.key_hash (length s.shards),
                        old,
                        new,
                        refl,
                        e,
                        refl,
                        ready,
                        deeper,
                      ),
                    )
            ]
    ]

enqueue_in-Stored :
    (st : LifecycleState) (s : Scheduler) (job : InternalJob) (now : ℕ)
    → Stored s (enqueue_in st s job now)
unfolding enqueue_in
enqueue_in-Stored state_stopping s job now = (refl, inl (stopped, refl, refl))
enqueue_in-Stored state_stopped s job now = (refl, inl (stopped, refl, refl))
enqueue_in-Stored state_new s job now = admit-Stored s job now
enqueue_in-Stored state_running s job now = admit-Stored s job now

try_enqueue_in-Stored :
    (st : LifecycleState) (s : Scheduler) (job : InternalJob) (now : ℕ)
    → Stored s (try_enqueue_in st s job now)
unfolding try_enqueue_in
try_enqueue_in-Stored state_stopping s job now = (refl, inl (stopped, refl, refl))
try_enqueue_in-Stored state_stopped s job now = (refl, inl (stopped, refl, refl))
try_enqueue_in-Stored state_new s job now = (refl, inl (not_started, refl, refl))
try_enqueue_in-Stored state_running s job now = admit-Stored s job now

pub enqueue-Stored : (s : Scheduler) (job : InternalJob) (now : ℕ) → Stored s (enqueue s job now)
unfolding enqueue
enqueue-Stored s job now =
    enqueue_in-Stored s.state (count_lane job.lane_id record_lane_admission_attempt s) job now

pub try_enqueue-Stored :
    (s : Scheduler) (job : InternalJob) (now : ℕ) → Stored s (try_enqueue s job now)
unfolding try_enqueue
try_enqueue-Stored s job now =
    try_enqueue_in-Stored s.state (count_lane job.lane_id record_lane_admission_attempt s) job now
