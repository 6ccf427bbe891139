-- ===== src/World/Defs.antt =====
-- The state that submitters and workers share, and the steps by which it changes.
use go_keylane.Base.{
  ℕ, ◌≤◌, ◌<◌, ◌≡◌, Bool, true, false, some, List, [], ◌∷◌, ◌++◌, Result, ok, err, length,
  get_elem?, set,
}
use go_keylane.Errors.{Error}
use go_keylane.Job.{InternalJob}
use go_keylane.Scheduler.State.{Scheduler}
use go_keylane.Scheduler.Enqueue.{enqueue, try_enqueue}
use go_keylane.Scheduler.Process.{Tick, collect, run_job, cancel_rest}
use go_keylane.Scheduler.Lifecycle.{start, begin_stop, finish_stop}
use go_keylane.Scheduler.Policy.{update_quota_policy}
use go_keylane.Quota.{QuotaPolicyInput}

-- A submitter between its enqueue and its send on the ready channel: Submit blocks in a `select`,
-- TrySubmit has a `default`.
pub data Sender : Type 0 where
  submitter : ℕ → Sender
  trier : ℕ → Sender

abbrev pub target : Sender → ℕ
target (submitter i) = i
target (trier i) = i

-- A worker: at the channel, with a shard id just received, or with what is left of its batch.
pub data Worker : Type 0 where
  idle : Worker
  received : ℕ → Worker
  running : ℕ → List InternalJob → Bool → Worker
  exited : Worker

pub record World : Type 0 where
  pub sched : Scheduler
  pub senders : List Sender
  pub workers : List Worker

-- The caller of Enqueue goes on to send the shard id if the shard became ready.
abbrev pub after_enqueue : (ℕ → Sender) → World → Scheduler × Result Error (ℕ × Bool) → World
after_enqueue sender w (s, err e) = record w { sched = s }
after_enqueue sender w (s, ok (i, false)) = record w { sched = s }
after_enqueue sender w (s, ok (i, true)) = record w { sched = s; senders = sender i ∷ w.senders }

abbrev pub with_worker : World → ℕ → Worker → World
with_worker w k worker = record w { workers = set w.workers k worker }

abbrev pub send : Scheduler → ℕ → Scheduler
send s i = record s { ready_ch = s.ready_ch ++ i ∷ [] }

-- After collecting, the worker holds the batch.
abbrev pub after_collect : World → ℕ → ℕ → Scheduler × List InternalJob × Bool → World
after_collect w k i (s, batch, has_more) =
    with_worker (record w { sched = s }) k (running i batch has_more)

-- The channel has the capacity of the number of shards.
abbrev pub HasRoom : Scheduler → Type 0
HasRoom s = length s.ready_ch < length s.shards

-- The steps of a system in which no context is cancelled before a send.
pub data Step (w : World) : World → Type 0 where
  submit :
      (job : InternalJob) (now : ℕ) → Step w (after_enqueue submitter w (enqueue w.sched job now))
  try_submit :
      (job : InternalJob) (now : ℕ) → Step w (after_enqueue trier w (try_enqueue w.sched job now))
  notify :
      (xs ys : List Sender) (sender : Sender)
      → w.senders ≡ xs ++ sender ∷ ys
      → HasRoom w.sched
      → Step w (record w { sched = send w.sched (target sender); senders = xs ++ ys })
  receive :
      (k i : ℕ) (rest : List ℕ)
      → get_elem? w.workers k ≡ some idle
      → w.sched.ready_ch ≡ i ∷ rest
      → Step w
          (with_worker (record w { sched = record (w.sched) { ready_ch = rest } }) k (received i))
  -- `shardID < 0 || shardID >= len(s.shards)`: the worker goes on.
  skip :
      (k i : ℕ)
      → get_elem? w.workers k ≡ some (received i)
      → length w.sched.shards ≤ i
      → Step w (with_worker w k idle)
  gather :
      (k i pooled now : ℕ)
      → get_elem? w.workers k ≡ some (received i)
      → i < length w.sched.shards
      → Step w (after_collect w k i (collect w.sched i pooled now))
  run :
      (k i : ℕ) (job : InternalJob) (jobs : List InternalJob) (has_more : Bool) (tick : Tick)
      → get_elem? w.workers k ≡ some (running i (job ∷ jobs) has_more)
      → Step w (
          with_worker (record w { sched = run_job w.sched i job tick }) k (running i jobs has_more))
  cancel :
      (k i : ℕ) (jobs : List InternalJob) (has_more : Bool)
      → get_elem? w.workers k ≡ some (running i jobs has_more)
      → Step w
          (with_worker (record w { sched = cancel_rest w.sched i jobs }) k (running i [] has_more))
  requeue :
      (k i : ℕ)
      → get_elem? w.workers k ≡ some (running i [] true)
      → HasRoom w.sched
      → Step w (with_worker (record w { sched = send w.sched i }) k idle)
  finish :
      (k i : ℕ) → get_elem? w.workers k ≡ some (running i [] false) → Step w (with_worker w k idle)
  exit : (k : ℕ) → get_elem? w.workers k ≡ some idle → Step w (with_worker w k exited)
  start_up : Step w (record w { sched = (start w.sched).0 })
  stop_begins : Step w (record w { sched = (begin_stop w.sched).0 })
  stop_ends : Step w (record w { sched = finish_stop w.sched })
  set_quotas :
      (policy : QuotaPolicyInput)
      → Step w (record w { sched = (update_quota_policy w.sched policy).0 })

-- What the `select` of Submit and of processShard may do instead of the send when their context is
-- cancelled, and the `default` of TrySubmit when the channel is full.
pub data Escape (w : World) : World → Type 0 where
  abandon :
      (xs ys : List Sender) (i : ℕ)
      → w.senders ≡ xs ++ submitter i ∷ ys
      → Escape w (record w { senders = xs ++ ys })
  give_up :
      (k i : ℕ) → get_elem? w.workers k ≡ some (running i [] true) → Escape w (with_worker w k idle)
  default :
      (xs ys : List Sender) (i : ℕ)
      → w.senders ≡ xs ++ trier i ∷ ys
      → length w.sched.ready_ch ≡ length w.sched.shards
      → Escape w (record w { senders = xs ++ ys })

pub data Steps (w : World) : World → Type 0 where
  here : Steps w w
  next : {u v : World} → Steps w u → Step u v → Steps w v

-- Every step and every escape.
pub data AnySteps (w : World) : World → Type 0 where
  stay : AnySteps w w
  step : {u v : World} → AnySteps w u → Step u v → AnySteps w v
  escape : {u v : World} → AnySteps w u → Escape u v → AnySteps w v
