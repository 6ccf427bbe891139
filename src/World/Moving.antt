-- ===== src/World/Moving.antt =====
-- How the parts of a step change the number of tokens of a shard.
use go_keylane.Base.{
  ℕ, ◌+◌, ◌≤◌, ◌≡◌, refl, ap, Bool, true, false, some, List, ◌∷◌, ◌++◌, Result, ok, arith,
  get_elem?,
}
use go_keylane.Errors.{Error}
use go_keylane.Job.{InternalJob}
use go_keylane.Scheduler.State.{Scheduler}
use go_keylane.World.Defs.{Sender, target, Worker, received, running, World, with_worker, send}
use go_keylane.World.Tokens.{
  hit, count, count_senders, held, tokens, count_workers-set, count-send, count_senders-middle,
  count_senders-cons, hit_self,
}
use go_keylane.World.Invariant.{held-le}

-- Worker `k` goes from `old` to `new`, and nothing else of the world's tokens changes.
pub tokens-worker :
    (w : World) (s : Scheduler) (k : ℕ) (old new : Worker) (j : ℕ)
    → get_elem? w.workers k ≡ some old
    → count j s.ready_ch + held j new ≡ count j w.sched.ready_ch + held j old
    → tokens j (with_worker (record w { sched = s }) k new) ≡ tokens j w
unfolding tokens
tokens-worker w s k old new j e h = omega (arith, count_workers-set j w.workers k old new e)

pub tokens-sched :
    (w : World) (s : Scheduler) (j : ℕ)
    → s.ready_ch ≡ w.sched.ready_ch
    → tokens j (record w { sched = s }) ≡ tokens j w
unfolding tokens
tokens-sched w s j e = omega (arith, ap (count j) e)

-- A send by a submitter moves its token to the channel.
pub tokens-notify :
    (w : World) (xs ys : List Sender) (sender : Sender) (j : ℕ)
    → w.senders ≡ xs ++ sender ∷ ys
    → tokens j (record w { sched = send w.sched (target sender); senders = xs ++ ys }) ≡ tokens j w
unfolding tokens
tokens-notify w xs ys sender j e = omega (
  arith,
  ap (count_senders j) e,
  count_senders-middle j xs ys sender,
  count-send j (target sender) w.sched.ready_ch,
)

-- A worker that has received a shard id holds the token of a shard that exists.
pub received_token :
    (w : World) (k i : ℕ) → get_elem? w.workers k ≡ some (received i) → 1 ≤ tokens i w
unfolding tokens
received_token w k i e = omega (arith, held-le i w.workers k (received i) e, hit_self i)

pub collect_tokens :
    (w : World) (s : Scheduler) (k i : ℕ) (batch : List InternalJob) (has_more : Bool) (j : ℕ)
    → get_elem? w.workers k ≡ some (received i)
    → s.ready_ch ≡ w.sched.ready_ch
    → tokens j (with_worker (record w { sched = s }) k (running i batch has_more)) + hit i j
      ≡ tokens j w + held j (running i batch has_more)
unfolding tokens
collect_tokens w s k i batch has_more j e c = omega (
  arith,
  count_workers-set j w.workers k (received i) (running i batch has_more) e,
  ap (count j) c,
)

-- The worker keeps the token exactly if the shard is still ready.
pub same_held :
    (i : ℕ) (jobs jobs' : List InternalJob) (has_more : Bool) (j : ℕ)
    → held j (running i jobs has_more) ≡ held j (running i jobs' has_more)
same_held i jobs jobs' true j = refl
same_held i jobs jobs' false j = refl

pub ok_fst :
    {i j : ℕ} {b c : Bool} → ◌≡◌ {A = Result Error (ℕ × Bool)} (ok (i, b)) (ok (j, c)) → i ≡ j
ok_fst e = cc

pub ok_snd :
    {i j : ℕ} {b c : Bool} → ◌≡◌ {A = Result Error (ℕ × Bool)} (ok (i, b)) (ok (j, c)) → b ≡ c
ok_snd e = cc

pub submit_tokens :
    (w : World) (s : Scheduler) (sender : ℕ → Sender) (i j : ℕ)
    → target (sender i) ≡ i
    → s.ready_ch ≡ w.sched.ready_ch
    → tokens j (record w { sched = s; senders = sender i ∷ w.senders }) ≡ tokens j w + hit i j
unfolding tokens
submit_tokens w s sender i j e c =
    omega (arith, ap (count j) c, count_senders-cons j (sender i) w.senders, ap (λ k. hit k j) e)
