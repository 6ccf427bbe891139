-- ===== src/Shard/Tests.antt =====
-- Runs of internal/core/shard.go and internal/core/enqueue.go on a shard of two lanes.
use go_keylane.Base.{ℕ, ◌≡◌, refl, ◌∷◌, [], inl, true, false, ok, arith, All}
use go_keylane.Job.{InternalJob, zero_job}
use go_keylane.LaneQueue.{push}
use go_keylane.LaneQueue.Contents.{IsValid}
use go_keylane.Shard.Defs.{Shard, enqueue_into_shard, drain_lanes, sum}
use go_keylane.Shard.Enqueuing.{Enqueues, enqueue_into_shard-Enqueues}
use go_keylane.Shard.Draining.{Drained, drain_lanes-Drained}

abbrev job : ℕ → ℕ → InternalJob
job n lane = record zero_job { key_hash = n; lane_id = lane }

-- The first lane has a slot left, and the second is full.
abbrev two_lanes : Shard
two_lanes = record {
  ready = false;
  lanes =
      record { items = zero_job ∷ job 7 0 ∷ []; head = 1; tail = 0; size = 1 }
      ∷ record { items = job 8 1 ∷ []; head = 0; tail = 0; size = 1 }
      ∷ [];
}

two_lanes-IsValid : All IsValid two_lanes.lanes
two_lanes-IsValid = (
  record { head_in = inl (omega arith); tail_at = refl; size_le = omega arith },
  (record { head_in = inl (omega arith); tail_at = refl; size_le = omega arith }, tt),
)

enqueue_test : (enqueue_into_shard two_lanes (job 9 0) 40 true false).1 ≡ ok true
unfolding enqueue_into_shard push
enqueue_test = refl

enqueue_into_shard-Enqueues_example :
    Enqueues two_lanes
      (job 9 0)
      40
      true
      false
      (enqueue_into_shard two_lanes (job 9 0) 40 true false)
enqueue_into_shard-Enqueues_example =
    enqueue_into_shard-Enqueues two_lanes (job 9 0) 40 true false two_lanes-IsValid

drain_lanes-Drained_example :
    Drained (1 ∷ 2 ∷ []) (two_lanes.lanes) [] (drain_lanes (1 ∷ 2 ∷ []) two_lanes.lanes 4 [])
unfolding sum
drain_lanes-Drained_example =
    drain_lanes-Drained (1 ∷ 2 ∷ []) two_lanes.lanes 4 [] two_lanes-IsValid (omega arith)
