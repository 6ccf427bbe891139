-- ===== src/World/Capacity.antt =====
-- The ready channel never overflows: its capacity is the number of shards.
use go_keylane.Base.{
  ℕ, zero, suc, ◌+◌, ◌≡◌, ◌≤◌, ◌<◌, refl, ap, ◌∙◌, Bool, true, false, some, List, [], ◌∷◌, ◌++◌,
  map, length, length-append, get_elem?, get_elem?-some, arith, dec_lt, ℕ_discrete,
}
use go_keylane.Job.{InternalJob}
use go_keylane.HotKey.{HotKeyConfig}
use go_keylane.World.Defs.{
  World, Sender, target, Worker, idle, received, running, exited, HasRoom, Steps,
}
use go_keylane.World.Tokens.{
  hit, hit_self, hit_ne, count, count-append, count-nil, count_senders, held, count_workers, tokens,
}
use go_keylane.Scheduler.State.{Obs}
use go_keylane.World.Initial.{initial, initial-Inv, Steps-Inv}
use go_keylane.Registry.{LaneRegistry}
use go_keylane.World.Invariant.{expected, Inv}

sum_below : ℕ → (ℕ → ℕ) → ℕ
sum_below zero f = 0
sum_below (suc n) f = f n + sum_below n f

sum_below-add : (n : ℕ) (f g : ℕ → ℕ) → sum_below n (λ j. f j + g j) ≡ sum_below n f + sum_below n g
unfolding sum_below
sum_below-add zero f g = refl
sum_below-add (suc n) f g = omega (arith, sum_below-add n f g)

sum_below-le : (n : ℕ) (f : ℕ → ℕ) → ((j : ℕ) → j < n → f j ≤ 1) → sum_below n f ≤ n
unfolding sum_below
sum_below-le zero f h = omega arith
sum_below-le (suc n) f h =
    omega (arith, h n (omega arith), sum_below-le n f (λ j k. h j (omega arith)))

sum_below-hit_out : (i n : ℕ) → n ≤ i → sum_below n (hit i) ≡ 0
unfolding sum_below
sum_below-hit_out i zero h = refl
sum_below-hit_out i (suc n) h =
    omega (arith, hit_ne i n (omega arith), sum_below-hit_out i n (omega arith))

sum_below-hit : (i n : ℕ) → i < n → sum_below n (hit i) ≡ 1
unfolding sum_below
sum_below-hit i zero h = elim h [ ]
sum_below-hit i (suc n) h = elim (ℕ_discrete i n) [
  | yes e ↦ omega (arith, hit_self i, ap (hit i) e, sum_below-hit_out i n (omega arith))
  | no ne ↦ omega (arith, hit_ne i n ne, sum_below-hit i n (omega arith))
]

sum_below-zero : (n : ℕ) → sum_below n (λ j. 0) ≡ 0
unfolding sum_below
sum_below-zero zero = refl
sum_below-zero (suc n) = omega (arith, sum_below-zero n)

-- Ids below `n` are as many as their counts add up to.
sum_below-count :
    (n : ℕ) (is : List ℕ)
    → ((j : ℕ) → n ≤ j → count j is ≡ 0)
    → sum_below n (λ j. count j is) ≡ length is
unfolding count
sum_below-count n [] h = sum_below-zero n
sum_below-count n (i ∷ is) h = elim (dec_lt i n) [
  | yes near ↦ omega (
    arith,
    sum_below-add n (hit i) (λ j. count j is),
    sum_below-hit i n near,
    sum_below-count n is (λ j k. omega (arith, h j k)),
  )
  | no far ↦ absurd (omega (arith, h i (omega arith), hit_self i))
]

-- Ids below `n` that stand once at most are at most `n`.
length-le :
    (n : ℕ) (is : List ℕ)
    → ((j : ℕ) → n ≤ j → count j is ≡ 0)
    → ((j : ℕ) → j < n → count j is ≤ 1)
    → length is ≤ n
length-le n is far once =
    omega (arith, sum_below-count n is far, sum_below-le n (λ j. count j is) once)

-- The id that a worker holds a token of.
held_ids : Worker → List ℕ
held_ids idle = []
held_ids exited = []
held_ids (received i) = i ∷ []
held_ids (running i jobs true) = i ∷ []
held_ids (running i jobs false) = []

worker_ids : List Worker → List ℕ
worker_ids [] = []
worker_ids (w ∷ ws) = held_ids w ++ worker_ids ws

count-held_ids : (j : ℕ) (w : Worker) → count j (held_ids w) ≡ held j w
unfolding held_ids count
count-held_ids j idle = refl
count-held_ids j exited = refl
count-held_ids j (received i) = omega arith
count-held_ids j (running i jobs true) = omega arith
count-held_ids j (running i jobs false) = refl

count-worker_ids : (j : ℕ) (ws : List Worker) → count j (worker_ids ws) ≡ count_workers j ws
unfolding worker_ids count_workers
count-worker_ids j [] = count-nil j
count-worker_ids j (w ∷ ws) =
    omega (
      arith,
      count-append j (held_ids w) (worker_ids ws),
      count-held_ids j w,
      count-worker_ids j ws,
    )

count-targets : (j : ℕ) (ss : List Sender) → count j (map target ss) ≡ count_senders j ss
unfolding count count_senders
count-targets j [] = refl
count-targets j (s ∷ ss) = omega (arith, count-targets j ss)

all_ids : World → List ℕ
all_ids w = w.sched.ready_ch ++ map target w.senders ++ worker_ids w.workers

count-all_ids : (j : ℕ) (w : World) → count j (all_ids w) ≡ tokens j w
unfolding all_ids tokens
count-all_ids j w = omega (
  arith,
  count-append j (w.sched.ready_ch ++ map target w.senders) (worker_ids w.workers),
  count-append j w.sched.ready_ch (map target w.senders),
  count-targets j w.senders,
  count-worker_ids j w.workers,
)

expected-le : (b : Bool) → expected b ≤ 1
expected-le true = omega arith
expected-le false = omega arith

tokens-le : (w : World) (j : ℕ) → Inv w → j < length w.sched.shards → tokens j w ≤ 1
tokens-le w j v h =
    let (shard, e) = get_elem?-some w.sched.shards j h in
    omega (arith, (v.settled j shard e).token, expected-le shard.ready)

length-all_ids : (w : World) → Inv w → length (all_ids w) ≤ length w.sched.shards
length-all_ids w v =
    length-le (length w.sched.shards) (all_ids w) (λ j h. count-all_ids j w ∙ v.bounded j h)
      (λ j h. omega (arith, count-all_ids j w, tokens-le w j v h))

length-targets : (ss : List Sender) → length (map target ss) ≡ length ss
length-targets [] = refl
length-targets (s ∷ ss) = ap suc (length-targets ss)

-- The channel, the submitters before their sends, and the workers that will send share the capacity.
shared_capacity :
    (w : World)
    → Inv w
    → length w.sched.ready_ch + length w.senders + length (worker_ids w.workers)
      ≤ length w.sched.shards
unfolding all_ids
shared_capacity w v = omega (
  arith,
  length-all_ids w v,
  length-append (w.sched.ready_ch ++ map target w.senders) (worker_ids w.workers),
  length-append w.sched.ready_ch (map target w.senders),
  length-targets w.senders,
)

length-worker_ids :
    (ws : List Worker) (k i : ℕ) (jobs : List InternalJob)
    → get_elem? ws k ≡ some (running i jobs true)
    → 1 ≤ length (worker_ids ws)
unfolding worker_ids held_ids
length-worker_ids [] k i jobs e = cc
length-worker_ids (w ∷ ws) zero i jobs e =
    let same : w ≡ running i jobs true = cc in
    omega (arith, length-append (held_ids w) (worker_ids ws), ap (λ x. length (held_ids x)) same)
length-worker_ids (w ∷ ws) (suc k) i jobs e =
    omega (arith, length-append (held_ids w) (worker_ids ws), length-worker_ids ws k i jobs e)

module _ {w : World} (shard_count worker_count queue_size : ℕ) (reg : LaneRegistry) (obs : Obs)
    (hot_key : HotKeyConfig)
    (steps : Steps (initial shard_count worker_count queue_size reg obs hot_key) w) where
  room :
      length w.sched.ready_ch + length w.senders + length (worker_ids w.workers)
      ≤ length w.sched.shards
  room =
      shared_capacity w
        (Steps-Inv (initial-Inv shard_count worker_count queue_size reg obs hot_key) steps)

  -- In every state that a new queue reaches while no context is cancelled before a send, a submitter
  -- that is about to send its shard finds room in the ready channel: the send of Submit does not
  -- block, and TrySubmit does not take its `default`.
  pub send-HasRoom :
      (xs ys : List Sender) (sender : Sender) → w.senders ≡ xs ++ sender ∷ ys → HasRoom w.sched
  send-HasRoom xs ys sender e = omega (arith, room, ap length e, length-append xs (sender ∷ ys))

  -- In every state that a new queue reaches while no context is cancelled before a send, a worker whose
  -- shard has more work finds room in the ready channel to requeue it.
  pub requeue-HasRoom :
      (k i : ℕ) (jobs : List InternalJob)
      → get_elem? w.workers k ≡ some (running i jobs true)
      → HasRoom w.sched
  requeue-HasRoom k i jobs e = omega (arith, room, length-worker_ids w.workers k i jobs e)
