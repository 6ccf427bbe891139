-- ===== src/World/Initial.antt =====
-- A new queue, before anything is submitted, and what holds in every state that it reaches.
use go_keylane.Base.{
  ℕ, zero, suc, ◌≡◌, ◌⊎◌, refl, ◌∙◌, sym, true, false, some, [], replicate, get_elem?, arith,
  All-get, All-replicate,
}
use go_keylane.LaneQueue.{new_lane_queue}
use go_keylane.Shard.{Shard, new_shard, has_work, any_work}
use go_keylane.Registry.{LaneRegistry, lane_count}
use go_keylane.Scheduler.State.{Obs, new_scheduler, configure_hot_key}
use go_keylane.HotKey.{HotKeyConfig}
use go_keylane.World.Defs.{World, idle, Steps, here, next}
use go_keylane.World.Tokens.{count, count_senders, count_workers, tokens}
use go_keylane.World.Invariant.{Settled, Inv}
use go_keylane.World.Wakeup.{Step-Inv}

-- New of queue.go: the observability and the hot-key trackers are set before anything is submitted.
abbrev pub initial : ℕ → ℕ → ℕ → LaneRegistry → Obs → HotKeyConfig → World
initial shard_count worker_count queue_size reg obs hot_key = record {
  sched =
      configure_hot_key
        (record (new_scheduler shard_count worker_count queue_size reg) { obs = obs }) hot_key;
  senders = [];
  workers = replicate worker_count idle;
}

idle_tokens : (j n : ℕ) → count_workers j (replicate n idle) ≡ 0
unfolding count_workers
idle_tokens j zero = refl
idle_tokens j (suc n) = omega (arith, idle_tokens j n)

tokens-initial :
    (j shard_count worker_count queue_size : ℕ) (reg : LaneRegistry) (obs : Obs)
    (hot_key : HotKeyConfig)
    → tokens j (initial shard_count worker_count queue_size reg obs hot_key) ≡ 0
unfolding tokens new_scheduler configure_hot_key count count_senders
tokens-initial j shard_count worker_count queue_size reg obs hot_key =
    omega (arith, idle_tokens j worker_count)

no_work : (n size : ℕ) → any_work (replicate n (new_lane_queue size)) ≡ false
unfolding any_work new_lane_queue
no_work zero size = refl
no_work (suc n) size = no_work n size

new_shard-Settled : (n size : ℕ) → Settled (new_shard n size) 0
unfolding new_shard has_work
new_shard-Settled n size = record { token = refl; awake = λ e. sym (no_work n size) ∙ e }

pub initial-Inv :
    (shard_count worker_count queue_size : ℕ) (reg : LaneRegistry) (obs : Obs)
    (hot_key : HotKeyConfig)
    → Inv (initial shard_count worker_count queue_size reg obs hot_key)
unfolding new_scheduler configure_hot_key
initial-Inv shard_count worker_count queue_size reg obs hot_key = record {
  settled = λ i shard e. rw (tokens-initial i shard_count worker_count queue_size reg obs hot_key) (
      All-get (λ s. Settled s 0) (replicate shard_count (new_shard (lane_count reg) queue_size)) i
        (All-replicate (λ s. Settled s 0) shard_count (new_shard (lane_count reg) queue_size)
          (new_shard-Settled (lane_count reg) queue_size))
        e);
  bounded = λ i h. tokens-initial i shard_count worker_count queue_size reg obs hot_key;
}

pub Steps-Inv : {w u : World} → Inv w → Steps w u → Inv u
Steps-Inv v here = v
Steps-Inv v (next steps s) = Step-Inv s (Steps-Inv v steps)

Settled-cases :
    (shard : Shard) (n : ℕ)
    → Settled shard n
    → ((shard.ready ≡ true) × (n ≡ 1))
      ⊎ ((shard.ready ≡ false) × (has_work shard ≡ false) × (n ≡ 0))
Settled-cases shard n v = ground arith

-- In every state that a new queue reaches while no context is cancelled before a send: a shard is
-- ready and has one token (its id stands once in the ready channel, or one submitter is about to send
-- it, or one worker has it), or it is not ready, has no token and holds no job.
pub no_lost_wakeup :
    {w : World} (shard_count worker_count queue_size : ℕ) (reg : LaneRegistry) (obs : Obs)
    (hot_key : HotKeyConfig)
    → Steps (initial shard_count worker_count queue_size reg obs hot_key) w
    → (i : ℕ) (shard : Shard) → get_elem? w.sched.shards i ≡ some shard
    → ((shard.ready ≡ true) × (tokens i w ≡ 1))
      ⊎ ((shard.ready ≡ false) × (has_work shard ≡ false) × (tokens i w ≡ 0))
no_lost_wakeup {w} shard_count worker_count queue_size reg obs hot_key steps i shard e =
    Settled-cases shard (tokens i w) (
      (Steps-Inv (initial-Inv shard_count worker_count queue_size reg obs hot_key) steps).settled i
        shard e)
