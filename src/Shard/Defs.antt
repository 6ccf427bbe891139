-- ===== src/Shard/Defs.antt =====
-- The operations of internal/core/shard.go and internal/core/enqueue.go, and the loop of
-- internal/core/process_shard.go that collects a batch.
use go_keylane.Base.{
  ℕ, ◌+◌, Bool, true, false, not, ◌||◌, none, some, List, [], ◌∷◌, Result, ok, err, get_elem?,
  update, replicate, if◌then◌else◌,
}
use go_keylane.Errors.{Error, invalid_lane_id}
use go_keylane.Job.{InternalJob}
use go_keylane.LaneQueue.{
  LaneQueue, new_lane_queue, push, stamp_newest_accepted, pop_n, is_empty, depth,
}

pub record Shard : Type 0 where
  pub ready : Bool
  pub lanes : List LaneQueue

unfoldable pub new_shard : ℕ → ℕ → Shard
new_shard lane_count queue_size = record {
  ready = false;
  lanes = replicate lane_count (new_lane_queue queue_size);
}

unfoldable pub total_depths : List LaneQueue → ℕ
unfolding depth
total_depths [] = 0
total_depths (q ∷ qs) = depth q + total_depths qs

unfoldable pub total_depth : Shard → ℕ
unfolding total_depths
total_depth s = total_depths s.lanes

unfoldable pub any_work : List LaneQueue → Bool
unfolding is_empty
any_work [] = false
any_work (q ∷ qs) = not (is_empty q) || any_work qs

unfoldable pub has_work : Shard → Bool
unfolding any_work
has_work s = any_work s.lanes

unfoldable pub lane_depth : Shard → ℕ → ℕ
unfolding depth
lane_depth s lane_id = elim (get_elem? s.lanes lane_id) [ none ↦ 0 | some q ↦ depth q ]

-- The lane queue after an accepted push: stamped, if either timestamp is wanted.
unfoldable pub stamped : LaneQueue → ℕ → Bool → Bool → LaneQueue
stamped q now accepted wait =
    if accepted || wait then stamp_newest_accepted q now accepted wait else q

-- The new shard, and `becameReady` or the error.
unfoldable pub enqueue_into_shard :
    Shard → InternalJob → ℕ → Bool → Bool → Shard × Result Error Bool
unfolding stamped
enqueue_into_shard s job now accepted wait = elim (get_elem? s.lanes job.lane_id) [
  | none ↦ (s, err invalid_lane_id)
  | some q ↦ elim (push q job) [
    | err e ↦ (s, err e)
    | ok q' ↦ (
      record {
        ready = true;
        lanes = update s.lanes job.lane_id (λ _. stamped q' now accepted wait);
      },
      ok (not s.ready),
    )
  ]
]

unfoldable pub sum : List ℕ → ℕ
sum [] = 0
sum (n ∷ ns) = n + sum ns

-- `for laneID, quota := range quotas { batch = shard.Lanes[laneID].popN(quota, batch) }`. There are
-- as many quotas as lanes; beyond the lanes the source would panic, and the loop here stops.
unfoldable pub drain_lanes :
    List ℕ → List LaneQueue → ℕ → List InternalJob → List LaneQueue × List InternalJob
drain_lanes [] qs bound dst = (qs, dst)
drain_lanes (quota ∷ quotas) [] bound dst = ([], dst)
drain_lanes (quota ∷ quotas) (q ∷ qs) bound dst =
    let (q', dst') = pop_n quota q dst bound in
    let (qs', batch) = drain_lanes quotas qs bound dst' in (q' ∷ qs', batch)
