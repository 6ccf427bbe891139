-- ===== src/LaneQueue/Refinement.antt =====
-- The ring of internal/core/lane_queue.go implements a bounded first-in first-out queue.
use go_keylane.Base.{
  ℕ, suc, ◌+◌, ◌-◌, ◌%◌, ◌≤◌, ◌<◌, ◌≡◌, ap, sym, ◌∙◌, ◌⊎◌, inl, inr, List, [], ◌∷◌, ◌++◌, ok, err,
  true, false, arith, dec_lt, length, get_or, set, length-set, get_or-set_self,
}
use native.Mathlib.Nat.{mod-lt, mod-add-mod}
use mathlib.Core.Path.{◌≡⟨◌⟩◌, ◌∎, ap₂}
use go_keylane.Errors.{queue_full}
use go_keylane.Job.{InternalJob, zero_job}
use go_keylane.LaneQueue.Defs.{LaneQueue, push, pop}
use go_keylane.LaneQueue.Contents.{
  window, contents, IsValid, next_cases, wrap_cases, window-set-Off, length-window, window-append,
  Off,
}

-- What an accepted `push` leaves.
abbrev pub pushed : LaneQueue → InternalJob → LaneQueue
pushed q job = record q {
  items = set q.items q.tail job;
  tail = (q.tail + 1) % length q.items;
  size = q.size + 1;
}

head_lt : (q : LaneQueue) → IsValid q → 0 < length q.items → q.head < length q.items
head_lt q v h = ground arith

pub tail_lt : (q : LaneQueue) → IsValid q → 0 < length q.items → q.tail < length q.items
tail_lt q v h = rw v.tail_at (mod-lt (q.head + q.size) h)

module _ (q : LaneQueue) (job : InternalJob) (v : IsValid q) (h : q.size < length q.items) where
  in_ring : q.head < length q.items
  in_ring = head_lt q v (omega arith)

  tail_off :
      ((q.head ≤ q.tail) × (q.head + q.size ≤ q.tail))
      ⊎ ((q.tail < q.head) × (q.head + q.size ≤ q.tail + length q.items))
  tail_off = ground (arith, wrap_cases q.head q.size (length q.items) in_ring v.size_le)

  pub pushed-IsValid : IsValid (pushed q job)
  pushed-IsValid = record {
    head_in = inl (rw (length-set q.items q.tail job) in_ring);
    tail_at = rw (length-set q.items q.tail job) (
        ap (λ k. (k + 1) % length q.items) v.tail_at
        ∙ mod-add-mod (q.head + q.size) (length q.items) 1
        ∙ ap (λ k. k % length q.items) (omega arith));
    size_le = rw (length-set q.items q.tail job) (omega arith);
  }

  pub contents-pushed : contents (pushed q job) ≡ contents q ++ job ∷ []
  unfolding contents
  contents-pushed =
      window ring q.head (q.size + 1)
      ≡⟨ ap (window ring q.head) (omega arith) ⟩ window ring q.head (suc q.size)
      ≡⟨ window-append ring q.head q.size (rw same in_ring) ⟩
        window ring q.head q.size ++ get_or ring ((q.head + q.size) % length ring) zero_job ∷ []
      ≡⟨ ap₂ (λ xs x. xs ++ x ∷ []) older newest ⟩ window q.items q.head q.size ++ job ∷ [] ∎
    where
      ring : List InternalJob
      ring = set q.items q.tail job

      same : length ring ≡ length q.items
      same = length-set q.items q.tail job

      older : window ring q.head q.size ≡ window q.items q.head q.size
      older =
          window-set-Off q.items q.head q.size q.tail job in_ring (tail_lt q v (omega arith))
            tail_off

      newest : get_or ring ((q.head + q.size) % length ring) zero_job ≡ job
      newest =
          rw (same, ← v.tail_at)
            (get_or-set_self q.items q.tail job zero_job (tail_lt q v (omega arith)))

-- `push` appends to a queue with room, and refuses a full one.
pub push_cases :
    (q : LaneQueue) (job : InternalJob)
    → IsValid q
    → ((q.size < length q.items) × (push q job ≡ ok (pushed q job)))
      ⊎ ((q.size ≡ length q.items) × (push q job ≡ err queue_full))
unfolding push
push_cases q job v = elim (dec_lt q.size (length q.items)) [
  | yes p ↦ inl (p, ground arith)
  | no p ↦ inr (omega (arith, v.size_le), ground (arith, v.size_le))
]

abbrev pub popped : LaneQueue → LaneQueue
popped q = record q {
  items = set q.items q.head zero_job;
  head = (q.head + 1) % length q.items;
  size = q.size - 1;
}

abbrev pub oldest : LaneQueue → InternalJob
oldest q = get_or q.items q.head zero_job

module _ (q : LaneQueue) (v : IsValid q) (h : 0 < q.size) where
  ring_pos : 0 < length q.items
  ring_pos = omega (arith, v.size_le)

  head-Off :
      (n : ℕ) → q.size ≡ suc n → Off ((q.head + 1) % length q.items) n q.head (length q.items)
  head-Off n e =
      ground (arith, v.size_le, next_cases q.head (length q.items) (head_lt q v ring_pos))

  pub popped-IsValid : IsValid (popped q)
  popped-IsValid = record {
    head_in = inl (rw (length-set q.items q.head zero_job) (mod-lt (q.head + 1) ring_pos));
    tail_at = rw (length-set q.items q.head zero_job) (
        v.tail_at
        ∙ ap (λ k. k % length q.items) (omega arith)
        ∙ sym (mod-add-mod (q.head + 1) (length q.items) (q.size - 1)));
    size_le = rw (length-set q.items q.head zero_job) (omega (arith, v.size_le));
  }

  contents-popped_at : (n : ℕ) → q.size ≡ suc n → contents q ≡ oldest q ∷ contents (popped q)
  unfolding contents window
  contents-popped_at n e =
      window q.items q.head q.size
      ≡⟨ ap (window q.items q.head) e ⟩ oldest q ∷ window q.items ((q.head + 1) % length q.items) n
      ≡⟨ ap (◌∷◌ (oldest q)) (sym off) ⟩
        oldest q ∷ window (set q.items q.head zero_job) ((q.head + 1) % length q.items) n
      ≡⟨ ap (λ k. oldest q ∷ window (set q.items q.head zero_job) ((q.head + 1) % length q.items) k)
          (omega arith) ⟩
        oldest q
        ∷ window (set q.items q.head zero_job) ((q.head + 1) % length q.items) (q.size - 1) ∎
    where
      off :
          window (set q.items q.head zero_job) ((q.head + 1) % length q.items) n
          ≡ window q.items ((q.head + 1) % length q.items) n
      off =
          window-set-Off q.items ((q.head + 1) % length q.items) n q.head zero_job
            (mod-lt (q.head + 1) ring_pos) (head_lt q v ring_pos) (head-Off n e)

  pub contents-popped : contents q ≡ oldest q ∷ contents (popped q)
  contents-popped = contents-popped_at (q.size - 1) (omega arith)

-- `pop` takes the oldest job of a queue that holds one, and leaves an empty queue alone.
pub pop_cases :
    (q : LaneQueue)
    → ((0 < q.size) × (pop q ≡ (popped q, oldest q, true)))
      ⊎ ((q.size ≡ 0) × (pop q ≡ (q, zero_job, false)))
unfolding pop
pop_cases q = elim (dec_lt 0 q.size) [
  | yes p ↦ inl (p, ground arith)
  | no p ↦ inr (omega arith, ground arith)
]

pub length-contents : (q : LaneQueue) → length (contents q) ≡ q.size
unfolding contents
length-contents q = length-window q.items q.head q.size
