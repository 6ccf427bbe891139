-- ===== src/LaneQueue/Contents.antt =====
-- The queue that the ring of internal/core/lane_queue.go stands for: its jobs, oldest first.
use go_keylane.Base.{
  ℕ, zero, suc, ◌+◌, ◌-◌, ◌%◌, ◌≤◌, ◌<◌, ◌≡◌, refl, ap, ◌∙◌, ◌≢◌, ◌⊎◌, inl, inr, List, [], ◌∷◌,
  ◌++◌, arith, dec_lt, length, get_or, set, length-set, get_or-set_ne,
}
use native.Mathlib.Nat.{mod-lt, mod-eq_of_lt, mod-add-mod, mod-eq-sub-mod, add-zero}
use go_keylane.Job.{InternalJob, zero_job}
use go_keylane.LaneQueue.Defs.{LaneQueue}

-- `n` slots from index `i` on, round the ring.
unfoldable pub window : List InternalJob → ℕ → ℕ → List InternalJob
window items i zero = []
window items i (suc n) = get_or items i zero_job ∷ window items ((i + 1) % length items) n

unfoldable pub contents : LaneQueue → List InternalJob
contents q = window q.items q.head q.size

-- The head stands in the ring, and the tail is `size` slots on.
pub record IsValid (q : LaneQueue) : Type 0 where
  pub head_in : (q.head < length q.items) ⊎ ((length q.items ≡ 0) × (q.head ≡ 0))
  pub tail_at : q.tail ≡ (q.head + q.size) % length q.items
  pub size_le : q.size ≤ length q.items

-- One step round a ring.
pub next_cases :
    (i c : ℕ) → i < c → ((i + 1 < c) × ((i + 1) % c ≡ i + 1)) ⊎ ((i + 1 ≡ c) × ((i + 1) % c ≡ 0))
next_cases i c h = grind arith

-- `n` steps round a ring of `c` slots.
pub wrap_cases :
    (i n c : ℕ)
    → i < c
    → n ≤ c
    → ((i + n < c) × ((i + n) % c ≡ i + n)) ⊎ ((c ≤ i + n) × ((i + n) % c ≡ i + n - c))
wrap_cases i n c h k = elim (dec_lt (i + n) c) [
  | yes p ↦ inl (p, mod-eq_of_lt p)
  | no p ↦ inr (omega arith, mod-eq-sub-mod (omega arith) ∙ mod-eq_of_lt (omega arith))
]

-- The slot `j` is not among the `n` slots from `i` on.
abbrev pub Off : ℕ → ℕ → ℕ → ℕ → Type 0
Off i n j c = ((i ≤ j) × (i + n ≤ j)) ⊎ ((j < i) × (i + n ≤ j + c))

Off-ne : (i n j c : ℕ) → j < c → Off i (suc n) j c → j ≢ i
Off-ne i n j c h (inl o) = omega arith
Off-ne i n j c h (inr o) = omega arith

Off-next : (i n j c : ℕ) → i < c → j < c → Off i (suc n) j c → Off ((i + 1) % c) n j c
Off-next i n j c hi hj off = ground (arith, next_cases i c)

pub window-set-Off :
    (items : List InternalJob) (i n j : ℕ) (v : InternalJob)
    → i < length items
    → j < length items
    → Off i n j (length items)
    → window (set items j v) i n ≡ window items i n
unfolding window
window-set-Off items i zero j v hi hj off = refl
window-set-Off items i (suc n) j v hi hj off =
    rw
      (
        get_or-set_ne items j i v zero_job (Off-ne i n j (length items) hj off),
        length-set items j v,
      )
      (ap (◌∷◌ (get_or items i zero_job)) (
        window-set-Off items ((i + 1) % length items) n j v (mod-lt (i + 1) (omega arith)) hj
          (Off-next i n j (length items) hi hj off)))

pub length-window : (items : List InternalJob) (i n : ℕ) → length (window items i n) ≡ n
unfolding window
length-window items i zero = refl
length-window items i (suc n) = ap suc (length-window items ((i + 1) % length items) n)

-- One more slot at the far end.
pub window-append :
    (items : List InternalJob) (i n : ℕ)
    → i < length items
    → window items i (suc n)
      ≡ window items i n ++ get_or items ((i + n) % length items) zero_job ∷ []
unfolding window
window-append items i zero h = rw (add-zero, mod-eq_of_lt h)
window-append items i (suc n) h =
    ap (◌∷◌ (get_or items i zero_job))
      (rw (← shift) (window-append items ((i + 1) % length items) n (mod-lt (i + 1) (omega arith))))
  where
    shift : ((i + 1) % length items + n) % length items ≡ (i + suc n) % length items
    shift = mod-add-mod (i + 1) (length items) n ∙ ap (λ k. k % length items) (omega arith)
