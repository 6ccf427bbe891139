-- ===== src/LaneQueue/Draining.antt =====
-- `popN` of internal/core/lane_queue.go takes the front of the queue, and the admission stamp touches
-- only the job that was pushed last.
use go_keylane.Base.{
  ℕ, zero, suc, ◌+◌, ◌-◌, ◌%◌, ◌≤◌, ◌<◌, ◌≡◌, refl, ap, sym, ◌∙◌, inl, inr, List, [], ◌∷◌, ◌++◌,
  Bool, true, false, arith, dec_lt, length, set, update, take, drop, min, length-set, append_assoc,
  append-nil, ◌==◌,
}
use native.Mathlib.Nat.{add-mod_right, mod-eq_of_lt}
use go_keylane.Job.{InternalJob, zero_job}
use go_keylane.LaneQueue.Defs.{LaneQueue, stamp, stamp_newest_accepted, pop, pop_loop, pop_n, clip}
use go_keylane.LaneQueue.Contents.{contents, IsValid, next_cases}
use go_keylane.LaneQueue.Refinement.{
  pushed, popped, oldest, pop_cases, popped-IsValid, contents-popped, tail_lt,
}

-- What taking `n` jobs off a queue into `dst` must leave.
pub record Drains (n : ℕ) (q : LaneQueue) (dst : List InternalJob)
    (r : LaneQueue × List InternalJob) : Type 0 where
  pub moved : r.1 ≡ dst ++ take n (contents q)
  pub kept : contents r.0 ≡ drop n (contents q)
  pub valid : IsValid r.0
  pub same_capacity : length r.0.items ≡ length q.items

pub pop_loop-Drains :
    (n : ℕ) (q : LaneQueue) (dst : List InternalJob)
    → IsValid q
    → n ≤ q.size
    → Drains n q dst (pop_loop n q dst)
unfolding pop_loop
pop_loop-Drains zero q dst v h = record {
  moved = sym (append-nil dst);
  kept = refl;
  valid = v;
  same_capacity = refl;
}
pop_loop-Drains (suc n) q dst v h =
    let pos : 0 < q.size = omega arith in
    let step : pop q ≡ (popped q, oldest q, true) = ground (arith, pop_cases q) in
    let rest =
      pop_loop-Drains n (popped q) (dst ++ oldest q ∷ []) (popped-IsValid q v pos) (omega arith) in
    rw step (record {
      moved =
          rest.moved
          ∙ append_assoc dst (oldest q ∷ []) (take n (contents (popped q)))
          ∙ ap (λ xs. dst ++ take (suc n) xs) (sym (contents-popped q v pos));
      kept = rest.kept ∙ ap (drop (suc n)) (sym (contents-popped q v pos));
      valid = rest.valid;
      same_capacity = rest.same_capacity ∙ length-set q.items q.head zero_job;
    })

clip-min : (a b : ℕ) → clip a b ≡ min a b
clip-min a b = ground arith

pop_n_pos :
    (limit : ℕ) (q : LaneQueue) (dst : List InternalJob) (bound : ℕ)
    → 0 < limit
    → 0 < q.size
    → pop_n limit q dst bound ≡ pop_loop (min (min limit q.size) (bound - length dst)) q dst
unfolding pop_n
pop_n_pos limit q dst bound h k =
    ground (arith, clip-min limit q.size, clip-min (clip limit q.size) (bound - length dst))

pop_n_none :
    (limit : ℕ) (q : LaneQueue) (dst : List InternalJob) (bound : ℕ)
    → min limit q.size ≡ 0
    → pop_n limit q dst bound ≡ (q, dst)
unfolding pop_n
pop_n_none limit q dst bound h = ground arith

-- `popN` takes as many jobs as the limit, the queue and the room in `dst` allow, oldest first.
pub pop_n-Drains :
    (limit : ℕ) (q : LaneQueue) (dst : List InternalJob) (bound : ℕ)
    → IsValid q
    → Drains (min (min limit q.size) (bound - length dst)) q dst (pop_n limit q dst bound)
pop_n-Drains limit q dst bound v = elim (dec_lt 0 (min limit q.size)) [
  | yes p ↦
      rw (pop_n_pos limit q dst bound (omega arith) (omega arith))
        (pop_loop-Drains (min (min limit q.size) (bound - length dst)) q dst v (omega arith))
  | no p ↦
      let none_taken : min (min limit q.size) (bound - length dst) ≡ 0 = omega arith in
      rw (none_taken, pop_n_none limit q dst bound (omega arith))
        (record { moved = sym (append-nil dst); kept = refl; valid = v; same_capacity = refl })
]

-- The slot before the one after `t`.
ring_back : (t c : ℕ) → t < c → ((t + 1) % c + c - 1) % c ≡ t
ring_back t c h = elim (next_cases t c h) [
  | inl (_, e) ↦ rw e (ap (λ k. k % c) (omega arith) ∙ add-mod_right t c ∙ mod-eq_of_lt h)
  | inr (wraps, e) ↦ rw e (mod-eq_of_lt (omega arith) ∙ omega arith)
]

update-set :
    (xs : List InternalJob) (i : ℕ) (v : InternalJob) (f : InternalJob → InternalJob)
    → update (set xs i v) i f ≡ set xs i (f v)
update-set [] i v f = refl
update-set (x ∷ xs) zero v f = refl
update-set (x ∷ xs) (suc i) v f = ap (◌∷◌ x) (update-set xs i v f)

-- The stamp after an accepted push is as if the stamped job had been pushed.
pub stamp_newest_accepted-pushed :
    (q : LaneQueue) (job : InternalJob) (now : ℕ) (accepted wait : Bool)
    → IsValid q
    → q.size < length q.items
    → stamp_newest_accepted (pushed q job) now accepted wait
      ≡ pushed q (stamp now accepted wait job)
unfolding stamp_newest_accepted
stamp_newest_accepted-pushed q job now accepted wait v h =
    let back = ring_back q.tail (length q.items) (tail_lt q v (omega arith)) in
    let more : (q.size + 1 == 0) ≡ false = ground arith in
    rw (more, length-set q.items q.tail job, back)
      (ap (λ xs. record (pushed q job) { items = xs })
        (update-set q.items q.tail job (stamp now accepted wait)))
