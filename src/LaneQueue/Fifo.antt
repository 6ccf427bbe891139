-- ===== src/LaneQueue/Fifo.antt =====
-- The ring of internal/core/lane_queue.go against its specification: whatever is pushed and popped, it
-- answers as a bounded first-in first-out queue.
use go_keylane.Base.{
  dec_lt, true, false, length-replicate, ℕ, ◌≡◌, refl, ap, ◌∙◌, inl, inr, List, [], ◌∷◌, ◌++◌, ok,
  err, arith, length, length-set, ltb, lt→ltb, le→ltb, if◌then◌else◌,
}
use go_keylane.Job.{InternalJob, zero_job}
use go_keylane.LaneQueue.Defs.{LaneQueue, push, pop, new_lane_queue}
use go_keylane.LaneQueue.Contents.{window, contents, IsValid}
use go_keylane.LaneQueue.Refinement.{
  pushed, push_cases, pushed-IsValid, contents-pushed, popped, oldest, pop_cases, popped-IsValid,
  contents-popped, length-contents,
}

pub data Request : Type 0 where
  put : InternalJob → Request
  get : Request

pub data Answer : Type 0 where
  stored full empty : Answer
  got : InternalJob → Answer

-- The answers of the ring to a sequence of calls.
unfoldable pub ring_answers : List Request → LaneQueue → List Answer
ring_answers [] q = []
ring_answers (put job ∷ rest) q = elim (push q job) [
  | ok q' ↦ stored ∷ ring_answers rest q'
  | err e ↦ full ∷ ring_answers rest q
]
ring_answers (get ∷ rest) q =
    let (q', job, found) = pop q in (if found then got job else empty) ∷ ring_answers rest q'

-- The answers of a queue of at most `bound` jobs that is a list, oldest first.
unfoldable pub list_answers : ℕ → List Request → List InternalJob → List Answer
list_answers bound [] jobs = []
list_answers bound (put job ∷ rest) jobs =
    if ltb (length jobs) bound
    then stored ∷ list_answers bound rest (jobs ++ job ∷ [])
    else full ∷ list_answers bound rest jobs
list_answers bound (get ∷ rest) [] = empty ∷ list_answers bound rest []
list_answers bound (get ∷ rest) (job ∷ jobs) = got job ∷ list_answers bound rest jobs

no_jobs : (q : LaneQueue) → q.size ≡ 0 → contents q ≡ []
unfolding contents window
no_jobs q e = ap (window q.items q.head) e

bound_and_jobs :
    (rest : List Request) {m n : ℕ} {xs ys : List InternalJob}
    → m ≡ n
    → xs ≡ ys
    → list_answers m rest xs ≡ list_answers n rest ys
bound_and_jobs rest e f = cc

-- From a ring that is valid, every sequence of pushes and pops is answered as by the list of its jobs,
-- bounded by the ring's length.
pub ring_answers-list :
    (rest : List Request) (q : LaneQueue)
    → IsValid q
    → ring_answers rest q ≡ list_answers (length q.items) rest (contents q)
unfolding ring_answers list_answers
ring_answers-list [] q v = refl
ring_answers-list (put job ∷ rest) q v = elim (push_cases q job v) [
  | inl (room, e) ↦
      let fits : ltb (length (contents q)) (length q.items) ≡ true =
        lt→ltb _ _ (omega (arith, length-contents q)) in
      rw (e, fits, ring_answers, list_answers)
        (ap (◌∷◌ stored) (
          ring_answers-list rest (pushed q job) (pushed-IsValid q job v room)
          ∙ bound_and_jobs rest (length-set q.items q.tail job) (contents-pushed q job v room)))
  | inr (no_room, e) ↦
      let over : ltb (length (contents q)) (length q.items) ≡ false =
        le→ltb _ _ (omega (arith, length-contents q)) in
      rw (e, over, ring_answers, list_answers) (ap (◌∷◌ full) (ring_answers-list rest q v))
]
ring_answers-list (get ∷ rest) q v = elim (pop_cases q) [
  | inl (some_left, e) ↦
      rw (e, contents-popped q v some_left, ring_answers, list_answers)
        (ap (◌∷◌ (got (oldest q))) (
          ring_answers-list rest (popped q) (popped-IsValid q v some_left)
          ∙ bound_and_jobs rest (length-set q.items q.head zero_job) refl))
  | inr (none_left, e) ↦
      rw (e, no_jobs q none_left, ring_answers, list_answers)
        (ap (◌∷◌ empty)
          (ring_answers-list rest q v ∙ bound_and_jobs rest refl (no_jobs q none_left)))
]

pub new_lane_queue-IsValid : (size : ℕ) → IsValid (new_lane_queue size)
unfolding new_lane_queue
new_lane_queue-IsValid size = record {
  head_in = elim (dec_lt 0 size) [
    | yes p ↦ inl (omega (arith, length-replicate size zero_job))
    | no p ↦ inr (omega (arith, length-replicate size zero_job), refl)
  ];
  tail_at = grind arith;
  size_le = omega arith;
}

-- Whatever is pushed on and popped off a new queue of `size` slots, in whatever order, the ring
-- answers as a first-in first-out queue that refuses a job when it holds `size` of them.
pub new_lane_queue-list :
    (size : ℕ) (rest : List Request)
    → ring_answers rest (new_lane_queue size) ≡ list_answers size rest []
unfolding new_lane_queue contents window
new_lane_queue-list size rest =
    ring_answers-list rest (new_lane_queue size) (new_lane_queue-IsValid size)
    ∙ bound_and_jobs rest (length-replicate size zero_job) refl
