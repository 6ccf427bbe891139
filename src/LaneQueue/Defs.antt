-- ===== src/LaneQueue/Defs.antt =====
-- internal/core/lane_queue.go: the ring and its operations.
use go_keylane.Base.{
  ℕ, zero, suc, ◌+◌, ◌-◌, ◌%◌, Bool, true, false, List, [], ◌∷◌, ◌++◌, Result, ok, err, ltb, ◌==◌,
  ◌||◌, if◌then◌else◌, length, get_or, set, update, replicate,
}
use go_keylane.Errors.{Error, queue_full}
use go_keylane.Job.{InternalJob, zero_job}

pub record LaneQueue : Type 0 where
  pub items : List InternalJob
  pub head : ℕ
  pub tail : ℕ
  pub size : ℕ

unfoldable pub new_lane_queue : ℕ → LaneQueue
new_lane_queue bound = record { items = replicate bound zero_job; head = 0; tail = 0; size = 0 }

unfoldable pub push : LaneQueue → InternalJob → Result Error LaneQueue
push q job =
    if q.size == length q.items
    then err queue_full
    else ok (record q {
      items = set q.items q.tail job;
      tail = (q.tail + 1) % length q.items;
      size = q.size + 1;
    })

-- The two writes of `stampNewestAccepted`, each under its flag.
abbrev pub stamp : ℕ → Bool → Bool → InternalJob → InternalJob
stamp now accepted wait job = record job {
  accepted_at = if accepted then now else job.accepted_at;
  enqueued_at = if wait then now else job.enqueued_at;
}

-- `q.tail - 1 + len(q.items)`, where the sum is positive; `-` of Go would pass through -1.
unfoldable pub stamp_newest_accepted : LaneQueue → ℕ → Bool → Bool → LaneQueue
stamp_newest_accepted q now accepted wait = if q.size == 0 then q else record q {
  items = update q.items ((q.tail + length q.items - 1) % length q.items) (stamp now accepted wait);
}

-- The second part is the `bool` of the source, the first the job that it returns with it.
unfoldable pub pop : LaneQueue → LaneQueue × InternalJob × Bool
pop q = if q.size == 0 then (q, zero_job, false) else (
  record q {
    items = set q.items q.head zero_job;
    head = (q.head + 1) % length q.items;
    size = q.size - 1;
  },
  get_or q.items q.head zero_job,
  true,
)

-- The loop of `popN`; `dst` is the slice of the jobs written so far.
unfoldable pub pop_loop : ℕ → LaneQueue → List InternalJob → LaneQueue × List InternalJob
pop_loop zero q dst = (q, dst)
pop_loop (suc n) q dst = let (q', job, found) = pop q in pop_loop n q' (dst ++ job ∷ [])

abbrev pub clip : ℕ → ℕ → ℕ
clip limit most = if ltb most limit then most else limit

-- `limit <= 0` is `limit == 0`: a quota is never negative.
unfoldable pub pop_n : ℕ → LaneQueue → List InternalJob → ℕ → LaneQueue × List InternalJob
unfolding pop_loop
pop_n limit q dst bound =
    if limit == 0 || q.size == 0
    then (q, dst)
    else pop_loop (clip (clip limit q.size) (bound - length dst)) q dst

unfoldable pub is_full : LaneQueue → Bool
is_full q = q.size == length q.items

unfoldable pub is_empty : LaneQueue → Bool
is_empty q = q.size == 0

unfoldable pub depth : LaneQueue → ℕ
depth q = q.size

unfoldable pub capacity : LaneQueue → ℕ
capacity q = length q.items
