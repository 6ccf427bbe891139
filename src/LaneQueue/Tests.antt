-- ===== src/LaneQueue/Tests.antt =====
-- Runs of internal/core/lane_queue.go on small queues.
use go_keylane.Base.{ℕ, ◌≡◌, refl, ◌∷◌, [], inl, err, arith}
use go_keylane.Errors.{queue_full}
use go_keylane.Job.{InternalJob, zero_job}
use go_keylane.LaneQueue.Defs.{LaneQueue, new_lane_queue, push, pop_n}
use go_keylane.LaneQueue.Contents.{IsValid}
use go_keylane.LaneQueue.Draining.{Drains, pop_n-Drains}
use go_keylane.LaneQueue.Fifo.{
  put, get, stored, full, empty, got, ring_answers, list_answers, new_lane_queue-list,
}

abbrev pub job : ℕ → InternalJob
job n = record zero_job { key_hash = n }

-- A ring of three slots whose two jobs stand at its end and at its start.
abbrev wrapped : LaneQueue
wrapped = record { items = job 8 ∷ zero_job ∷ job 7 ∷ []; head = 2; tail = 1; size = 2 }

wrapped-IsValid : IsValid wrapped
wrapped-IsValid = record { head_in = inl (omega arith); tail_at = refl; size_le = omega arith }

push_full_test :
    push (record wrapped { items = job 8 ∷ job 7 ∷ []; head = 1 }) (job 9) ≡ err queue_full
unfolding push
push_full_test = refl

pop_n-Drains_example : Drains 1 wrapped (job 6 ∷ []) (pop_n 5 wrapped (job 6 ∷ []) 2)
pop_n-Drains_example = pop_n-Drains 5 wrapped (job 6 ∷ []) 2 wrapped-IsValid

new_lane_queue-list_example :
    ring_answers (get ∷ put (job 9) ∷ put (job 5) ∷ get ∷ []) (new_lane_queue 1)
    ≡ empty ∷ stored ∷ full ∷ got (job 9) ∷ []
unfolding list_answers
new_lane_queue-list_example = new_lane_queue-list 1 (get ∷ put (job 9) ∷ put (job 5) ∷ get ∷ [])
