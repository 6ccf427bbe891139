-- ===== src/Shard/Draining.antt =====
-- The batch that internal/core/process_shard.go collects: each lane gives up to its quota, in order.
use mathlib.Core.Path.{ap₂}
use go_keylane.Base.{
  suc, ℕ, ◌+◌, ◌-◌, ◌≤◌, ◌≡◌, refl, ap, ◌∙◌, sym, List, [], ◌∷◌, ◌++◌, map, arith, length, take,
  drop, All, take_beyond, drop_beyond, length-take, length-append, append_assoc, append-nil, min,
}
use go_keylane.Job.{InternalJob}
use go_keylane.LaneQueue.{LaneQueue, pop_n}
use go_keylane.LaneQueue.Contents.{contents, IsValid}
use go_keylane.LaneQueue.Refinement.{length-contents}
use go_keylane.LaneQueue.Draining.{Drains, pop_n-Drains}
use go_keylane.Shard.Defs.{drain_lanes, sum}

-- The jobs that a round takes off queues that hold `css`, in the order of the lanes.
abbrev pub taken : List ℕ → List (List InternalJob) → List InternalJob
taken [] css = []
taken (quota ∷ quotas) [] = []
taken (quota ∷ quotas) (cs ∷ css) = take quota cs ++ taken quotas css

-- What it leaves in them.
abbrev pub kept : List ℕ → List (List InternalJob) → List (List InternalJob)
kept [] css = css
kept (quota ∷ quotas) [] = []
kept (quota ∷ quotas) (cs ∷ css) = drop quota cs ∷ kept quotas css

pub record Drained (quotas : List ℕ) (qs : List LaneQueue) (dst : List InternalJob)
    (r : List LaneQueue × List InternalJob) : Type 0 where
  pub moved : r.1 ≡ dst ++ taken quotas (map contents qs)
  pub left : map contents r.0 ≡ kept quotas (map contents qs)
  pub valid : All IsValid r.0
  pub same_count : length r.0 ≡ length qs

-- With room for all the quotas, `popN` is bounded by the quota and the queue alone.
pop_n_room :
    (quota : ℕ) (q : LaneQueue) (dst : List InternalJob) (bound : ℕ)
    → IsValid q
    → length dst + quota ≤ bound
    → Drains (min quota q.size) q dst (pop_n quota q dst bound)
pop_n_room quota q dst bound v h =
    let same : min (min quota q.size) (bound - length dst) ≡ min quota q.size = omega arith in
    rw same at (pop_n-Drains quota q dst bound v)

length_after :
    (quota : ℕ) (q : LaneQueue) (dst out : List InternalJob)
    → out ≡ dst ++ take (min quota q.size) (contents q)
    → length out ≤ length dst + quota
length_after quota q dst out e = omega (
  arith,
  ap length e,
  length-append dst (take (min quota q.size) (contents q)),
  length-take (min quota q.size) (contents q),
)

module _ {quota : ℕ} {quotas : List ℕ} {q q' : LaneQueue} {qs : List LaneQueue}
    {dst mid : List InternalJob} {r : List LaneQueue × List InternalJob} where
  Drained-cons :
      Drains (min quota q.size) q dst (q', mid)
      → Drained quotas qs mid r
      → Drained (quota ∷ quotas) (q ∷ qs) dst (q' ∷ r.0, r.1)
  Drained-cons first rest = record {
    moved =
        rest.moved
        ∙ ap (λ xs. xs ++ taken quotas (map contents qs)) (first.moved ∙ ap (◌++◌ dst) front)
        ∙ append_assoc dst (take quota (contents q)) (taken quotas (map contents qs));
    left = ap₂ ◌∷◌ (first.kept ∙ back) rest.left;
    valid = (first.valid, rest.valid);
    same_count = ap suc rest.same_count;
  }
    where
      front : take (min quota q.size) (contents q) ≡ take quota (contents q)
      front = take_beyond quota (min quota q.size) (contents q) (omega (arith, length-contents q))

      back : drop (min quota q.size) (contents q) ≡ drop quota (contents q)
      back = drop_beyond quota (min quota q.size) (contents q) (omega (arith, length-contents q))

-- With room in the batch for every quota, each lane gives its quota or all that it holds.
pub drain_lanes-Drained :
    (quotas : List ℕ) (qs : List LaneQueue) (bound : ℕ) (dst : List InternalJob)
    → All IsValid qs
    → length dst + sum quotas ≤ bound
    → Drained quotas qs dst (drain_lanes quotas qs bound dst)
unfolding drain_lanes sum
drain_lanes-Drained [] qs bound dst v h = record {
  moved = sym (append-nil dst);
  left = refl;
  valid = v;
  same_count = refl;
}
drain_lanes-Drained (quota ∷ quotas) [] bound dst v h = record {
  moved = sym (append-nil dst);
  left = refl;
  valid = tt;
  same_count = refl;
}
drain_lanes-Drained (quota ∷ quotas) (q ∷ qs) bound dst v h =
    let first = pop_n_room quota q dst bound v.0 (omega arith) in
    Drained-cons first (
      drain_lanes-Drained quotas qs bound (pop_n quota q dst bound).1 v.1
        (omega (arith, length_after quota q dst (pop_n quota q dst bound).1 first.moved)))
