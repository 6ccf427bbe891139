-- ===== src/World/Validity.antt =====
-- Every ring of every shard stays valid, so what is proved of valid rings holds in every state.
use go_keylane.Base.{
  ℕ, zero, suc, ◌≡◌, inl, inr, sym, subst, Bool, true, false, some, List, [], ◌∷◌, Result, ok, err,
  length, get_elem?, set, All, All-get, All-replicate, Option-cases, get_elem?-some,
}
use go_keylane.Errors.{Error}
use go_keylane.Job.{InternalJob}
use go_keylane.LaneQueue.{new_lane_queue}
use go_keylane.LaneQueue.Contents.{IsValid}
use go_keylane.LaneQueue.Fifo.{new_lane_queue-IsValid}
use go_keylane.Shard.{Shard, enqueue_into_shard, new_shard}
use go_keylane.Shard.Enqueuing.{enqueue_into_shard-Enqueues}
use go_keylane.Registry.{LaneRegistry, lane_count}
use go_keylane.Scheduler.State.{
  Scheduler, Obs, new_scheduler, configure_hot_key, route_shard_id, LifecycleState, state_new,
  state_running, state_stopping, state_stopped, count_lane,
}
use go_keylane.Counters.{record_lane_admission_attempt}
use go_keylane.Scheduler.Enqueue.{admit, enqueue, try_enqueue, enqueue_in, try_enqueue_in}
use go_keylane.Scheduler.Process.{collect}
use go_keylane.Scheduler.Batch.{Round, collect-Round}
use go_keylane.HotKey.{HotKeyConfig}
use go_keylane.World.Defs.{
  Sender, submitter, trier, World, after_enqueue, Step, submit, try_submit, notify, receive, skip,
  gather, run, cancel, requeue, finish, exit, start_up, stop_begins, stop_ends, set_quotas, Steps,
  here, next,
}
use go_keylane.World.Storing.{enqueue_into_shard-Outcome}
use go_keylane.World.Working.{
  run_job-Untouched, cancel_rest-Untouched, start-Untouched, begin_stop-Untouched,
  finish_stop-Untouched, update_quota_policy-Untouched,
}
use go_keylane.World.Initial.{initial}

abbrev pub LanesValid : Shard → Type 0
LanesValid shard = All IsValid shard.lanes

abbrev pub ShardsValid : Scheduler → Type 0
ShardsValid s = All LanesValid s.shards

All-set {κ μ} :
    {A : Type κ} (P : A → Type μ) (xs : List A) (i : ℕ) (a : A)
    → All P xs
    → P a
    → All P (set xs i a)
All-set P [] i a v p = tt
All-set P (x ∷ xs) zero a v p = (p, v.1)
All-set P (x ∷ xs) (suc i) a v p = (v.0, All-set P xs i a v.1 p)

enqueue_into_shard-LanesValid :
    (s : Shard) (job : InternalJob) (now : ℕ) (accepted wait : Bool)
    → LanesValid s
    → LanesValid (enqueue_into_shard s job now accepted wait).0
enqueue_into_shard-LanesValid s job now accepted wait v =
    elim (enqueue_into_shard-Enqueues s job now accepted wait v) [
      | inl (e, same) ↦ subst (λ r. LanesValid r.0) (sym same) v
      | inr (q, e, inl (full, same)) ↦ subst (λ r. LanesValid r.0) (sym same) v
      | inr (q, e, inr (room, accepts)) ↦ accepts.valid
    ]

admit-ShardsValid :
    (s : Scheduler) (job : InternalJob) (now : ℕ) → ShardsValid s → ShardsValid (admit s job now).0
unfolding admit
admit-ShardsValid s job now v =
    let i = route_shard_id job.key_hash (length s.shards) in
    elim (Option-cases (get_elem? s.shards i)) [
      | inl e ↦ rw (e, admit) v
      | inr (old, e) ↦
          let kept =
            enqueue_into_shard-LanesValid old job now s.obs.enable_queue_wait_timing
              s.obs.track_queue_wait (All-get LanesValid s.shards i v e) in
          elim (enqueue_into_shard-Outcome old job now s.obs.enable_queue_wait_timing
            s.obs.track_queue_wait) [
              | inl (x, o) ↦
                  let new_valid = subst (λ r. LanesValid r.0) o kept in
                  rw (e, o, admit) (All-set LanesValid s.shards i old v new_valid)
              | inr (new, o, ready, deeper) ↦
                  let new_valid = subst (λ r. LanesValid r.0) o kept in
                  rw (e, o, admit) (All-set LanesValid s.shards i new v new_valid)
            ]
    ]

enqueue_in-ShardsValid :
    (st : LifecycleState) (s : Scheduler) (job : InternalJob) (now : ℕ)
    → ShardsValid s
    → ShardsValid (enqueue_in st s job now).0
unfolding enqueue_in
enqueue_in-ShardsValid state_stopping s job now v = v
enqueue_in-ShardsValid state_stopped s job now v = v
enqueue_in-ShardsValid state_new s job now v = admit-ShardsValid s job now v
enqueue_in-ShardsValid state_running s job now v = admit-ShardsValid s job now v

try_enqueue_in-ShardsValid :
    (st : LifecycleState) (s : Scheduler) (job : InternalJob) (now : ℕ)
    → ShardsValid s
    → ShardsValid (try_enqueue_in st s job now).0
unfolding try_enqueue_in
try_enqueue_in-ShardsValid state_stopping s job now v = v
try_enqueue_in-ShardsValid state_stopped s job now v = v
try_enqueue_in-ShardsValid state_new s job now v = v
try_enqueue_in-ShardsValid state_running s job now v = admit-ShardsValid s job now v

after_enqueue-ShardsValid :
    (sender : ℕ → Sender) (w : World) (r : Scheduler × Result Error (ℕ × Bool))
    → ShardsValid r.0
    → ShardsValid (after_enqueue sender w r).sched
after_enqueue-ShardsValid sender w (s, err e) v = v
after_enqueue-ShardsValid sender w (s, ok (i, false)) v = v
after_enqueue-ShardsValid sender w (s, ok (i, true)) v = v

same_shards : {xs ys : List Shard} → ys ≡ xs → All LanesValid xs → All LanesValid ys
same_shards e v = subst (All LanesValid) (sym e) v

Step-ShardsValid : {w u : World} → Step w u → ShardsValid w.sched → ShardsValid u.sched
unfolding enqueue try_enqueue
Step-ShardsValid {w} (submit job now) v =
    after_enqueue-ShardsValid submitter w (enqueue w.sched job now) (
      enqueue_in-ShardsValid w.sched.state
        (count_lane job.lane_id record_lane_admission_attempt w.sched) job now v)
Step-ShardsValid {w} (try_submit job now) v =
    after_enqueue-ShardsValid trier w (try_enqueue w.sched job now) (
      try_enqueue_in-ShardsValid w.sched.state
        (count_lane job.lane_id record_lane_admission_attempt w.sched) job now v)
Step-ShardsValid (notify xs ys sender e room) v = v
Step-ShardsValid (receive k i rest e c) v = v
Step-ShardsValid (skip k i e far) v = v
Step-ShardsValid {w} (gather k i pooled now e near) v =
    let (old, found) = get_elem?-some w.sched.shards i near in
    let round =
      collect-Round w.sched i pooled now old found (All-get LanesValid w.sched.shards i v found) in
    subst (All LanesValid) (sym round.stored)
      (All-set LanesValid w.sched.shards i round.new v round.valid)
Step-ShardsValid {w} (run k i job jobs has_more tick e) v =
    same_shards (run_job-Untouched w.sched i job tick).0 v
Step-ShardsValid {w} (cancel k i jobs has_more e) v =
    same_shards (cancel_rest-Untouched jobs i w.sched).0 v
Step-ShardsValid (requeue k i e room) v = v
Step-ShardsValid (finish k i e) v = v
Step-ShardsValid (exit k e) v = v
Step-ShardsValid {w} start_up v = same_shards (start-Untouched w.sched).0 v
Step-ShardsValid {w} stop_begins v = same_shards (begin_stop-Untouched w.sched).0 v
Step-ShardsValid {w} stop_ends v = same_shards (finish_stop-Untouched w.sched).0 v
Step-ShardsValid {w} (set_quotas policy) v =
    same_shards (update_quota_policy-Untouched w.sched policy).0 v

initial-ShardsValid :
    (shard_count worker_count queue_size : ℕ) (reg : LaneRegistry) (obs : Obs)
    (hot_key : HotKeyConfig)
    → ShardsValid (initial shard_count worker_count queue_size reg obs hot_key).sched
unfolding new_scheduler configure_hot_key new_shard
initial-ShardsValid shard_count worker_count queue_size reg obs hot_key =
    All-replicate LanesValid shard_count (new_shard (lane_count reg) queue_size) (
      All-replicate IsValid (lane_count reg) (new_lane_queue queue_size)
        (new_lane_queue-IsValid queue_size))

Steps-ShardsValid : {w u : World} → ShardsValid w.sched → Steps w u → ShardsValid u.sched
Steps-ShardsValid v here = v
Steps-ShardsValid v (next steps s) = Step-ShardsValid s (Steps-ShardsValid v steps)

-- In every state that a new queue reaches while no context is cancelled before a send, a round of any
-- shard takes from each lane its quota of the oldest jobs,
-- leaves the rest in order, and keeps the shard ready only if something is left.
pub collect_in_order :
    (shard_count worker_count queue_size : ℕ) (reg : LaneRegistry) (obs : Obs)
    (hot_key : HotKeyConfig) {w : World}
    → Steps (initial shard_count worker_count queue_size reg obs hot_key) w
    → (i pooled now : ℕ) (old : Shard) → get_elem? w.sched.shards i ≡ some old
    → Round w.sched i old (collect w.sched i pooled now)
collect_in_order shard_count worker_count queue_size reg obs hot_key {w} steps i pooled now old
      found =
    let start_valid = initial-ShardsValid shard_count worker_count queue_size reg obs hot_key in
    collect-Round w.sched i pooled now old found
      (All-get LanesValid w.sched.shards i (Steps-ShardsValid start_valid steps) found)
