-- ===== src/World/Stranded.antt =====
-- A shard that is marked ready while no one has or will send its id, and what each part of a step of
-- submit.go and internal/core/worker.go does to it.
use go_keylane.Base.{
  ℕ, ◌+◌, ◌≡◌, ◌≢◌, ◌≤◌, inl, inr, sym, ap, ◌∙◌, subst, Bool, true, false, not, some, List, [], ◌∷◌,
  ◌++◌, Result, ok, err, set, get_elem?, get_elem?-set_self, get_elem?-set_ne, get_elem?-lt, arith,
  ℕ_discrete,
}
use go_keylane.Errors.{Error}
use go_keylane.Job.{InternalJob}
use go_keylane.Shard.{Shard, total_depth}
use go_keylane.Scheduler.State.{Scheduler}
use go_keylane.World.Defs.{
  Sender, target, Worker, idle, received, running, World, after_enqueue, with_worker, after_collect,
}
use go_keylane.World.Tokens.{
  hit, hit_ne, count, count_senders, count_senders-middle, count_workers-set, held, held-running_ne,
  tokens,
}
use go_keylane.World.Storing.{Stored}
use go_keylane.World.Working.{Untouched, Collects}
use go_keylane.World.Moving.{
  tokens-worker, tokens-sched, received_token, collect_tokens, submit_tokens, ok_fst, ok_snd,
}

-- Shard `i` is marked ready with no token, and holds at least `d` jobs.
pub record Stranded (i d : ℕ) (w : World) : Type 0 where
  pub shard : Shard
  pub found : get_elem? w.sched.shards i ≡ some shard
  pub ready : shard.ready ≡ true
  pub no_token : tokens i w ≡ 0
  pub deep : d ≤ total_depth shard

module _ {i d : ℕ} {w w' : World} (v : Stranded i d w) (fewer : tokens i w' ≤ tokens i w) where
  pub Stranded-keep : w'.sched.shards ≡ w.sched.shards → Stranded i d w'
  Stranded-keep same = record {
    shard = v.shard;
    found = ap (λ xs. get_elem? xs i) same ∙ v.found;
    ready = v.ready;
    no_token = omega (arith, fewer, v.no_token);
    deep = v.deep;
  }

  Stranded-set_ne :
      (j : ℕ) (new : Shard) → j ≢ i → w'.sched.shards ≡ set w.sched.shards j new → Stranded i d w'
  Stranded-set_ne j new ne stored = record {
    shard = v.shard;
    found = ap (λ xs. get_elem? xs i) stored ∙ get_elem?-set_ne w.sched.shards j i new ne ∙ v.found;
    ready = v.ready;
    no_token = omega (arith, fewer, v.no_token);
    deep = v.deep;
  }

pub sched-Stranded :
    {i d : ℕ} (w : World) (s : Scheduler)
    → Untouched w.sched s
    → Stranded i d w
    → Stranded i d (record w { sched = s })
sched-Stranded {i} w s u v = Stranded-keep v (omega (arith, tokens-sched w s i u.1)) u.0

pub worker-Stranded :
    {i d : ℕ} (w : World) (s : Scheduler) (k : ℕ) (old new : Worker)
    → s.shards ≡ w.sched.shards
    → get_elem? w.workers k ≡ some old
    → count i s.ready_ch + held i new ≡ count i w.sched.ready_ch + held i old
    → Stranded i d w
    → Stranded i d (with_worker (record w { sched = s }) k new)
worker-Stranded {i} w s k old new same e h v =
    Stranded-keep v (omega (arith, tokens-worker w s k old new i e h)) same

pub gather-Stranded :
    {i d : ℕ} (w : World) (k j : ℕ) (old : Shard) (r : Scheduler × List InternalJob × Bool)
    → get_elem? w.workers k ≡ some (received j)
    → Collects w.sched j old r
    → Stranded i d w
    → Stranded i d (after_collect w k j r)
gather-Stranded {i} w k j old (s, batch, has_more) e c v =
    Stranded-set_ne v
      (omega (
        arith,
        collect_tokens w s k j batch has_more i e c.same_channel,
        hit_ne j i ne,
        held-running_ne j i batch has_more ne,
      ))
      j c.new ne c.stored
  where
    ne : j ≢ i
    ne p = absurd (omega (arith, received_token w k j e, ap (λ n. tokens n w) p, v.no_token))

pub same_shard : {a b : Shard} → some a ≡ some b → a ≡ b
same_shard e = cc

pub skip_tokens :
    (w : World) (k j i : ℕ)
    → get_elem? w.workers k ≡ some (received j)
    → tokens i (with_worker w k idle) ≤ tokens i w
unfolding tokens
skip_tokens w k j i e = omega (arith, count_workers-set i w.workers k (received j) idle e)

pub give_up_tokens :
    (w : World) (k j i : ℕ)
    → get_elem? w.workers k ≡ some (running j [] true)
    → tokens i (with_worker w k idle) ≤ tokens i w
unfolding tokens
give_up_tokens w k j i e = omega (arith, count_workers-set i w.workers k (running j [] true) idle e)

pub tokens-dropped :
    (w : World) (xs ys : List Sender) (sender : Sender) (i : ℕ)
    → w.senders ≡ xs ++ sender ∷ ys
    → tokens i (record w { senders = xs ++ ys }) + hit (target sender) i ≡ tokens i w
unfolding tokens
tokens-dropped w xs ys sender i e =
    omega (arith, ap (count_senders i) e, count_senders-middle i xs ys sender)

enqueued_self :
    {i d : ℕ} (w : World) (s : Scheduler) (sender : ℕ → Sender) (b : Bool) (old new : Shard)
    → s.ready_ch ≡ w.sched.ready_ch
    → b ≡ not old.ready
    → get_elem? w.sched.shards i ≡ some old
    → s.shards ≡ set w.sched.shards i new
    → new.ready ≡ true
    → total_depth new ≡ total_depth old + 1
    → Stranded i d w
    → Stranded i d (after_enqueue sender w (s, ok (i, b)))
enqueued_self w s sender true old new c b found stored ready deeper v =
    let same : v.shard ≡ old = same_shard (sym v.found ∙ found) in
    absurd (ground (arith, ap (λ (x : Shard). x.ready) same, v.ready))
enqueued_self {i} w s sender false old new c b found stored ready deeper v = record {
  shard = new;
  found =
      ap (λ xs. get_elem? xs i) stored
      ∙ get_elem?-set_self w.sched.shards i new (get_elem?-lt w.sched.shards i found);
  ready = ready;
  no_token = tokens-sched w s i c ∙ v.no_token;
  deep = omega (arith, v.deep, deeper, ap total_depth (same_shard (sym v.found ∙ found)));
}

enqueued_other :
    {i d : ℕ} (w : World) (s : Scheduler) (sender : ℕ → Sender) (j : ℕ) (b : Bool) (new : Shard)
    → target (sender j) ≡ j
    → s.ready_ch ≡ w.sched.ready_ch
    → s.shards ≡ set w.sched.shards j new
    → j ≢ i
    → Stranded i d w
    → Stranded i d (after_enqueue sender w (s, ok (j, b)))
enqueued_other {i} w s sender j true new name c stored ne v =
    Stranded-set_ne v (omega (arith, submit_tokens w s sender j i name c, hit_ne j i ne)) j new ne
      stored
enqueued_other {i} w s sender j false new name c stored ne v =
    Stranded-set_ne v (omega (arith, tokens-sched w s i c)) j new ne stored

pub submit-Stranded :
    {i d : ℕ} (w : World) (sender : ℕ → Sender) (r : Scheduler × Result Error (ℕ × Bool))
    → ((k : ℕ) → target (sender k) ≡ k)
    → Stored w.sched r
    → Stranded i d w
    → Stranded i d (after_enqueue sender w r)
submit-Stranded w sender (s, err e) names (c, inl (x, o, same)) v = sched-Stranded w s (same, c) v
submit-Stranded w sender (s, err e) names (c, inr (j, old, new, o, f, t, r, n)) v = cc
submit-Stranded w sender (s, ok (j, b)) names (c, inl (x, o, same)) v = cc
submit-Stranded {i} {d} w sender (s, ok (j, b)) names (c, inr (k, old, new, o, f, t, r, n)) v =
    elim (ℕ_discrete j i) [
      | yes p ↦
          subst (λ m. Stranded i d (after_enqueue sender w (s, ok (m, b)))) (sym p)
            (enqueued_self w s sender b old new c (ok_snd o)
              (ap (λ m. get_elem? w.sched.shards m) (sym p ∙ ok_fst o) ∙ f)
              (t ∙ ap (λ m. set w.sched.shards m new) (sym (ok_fst o) ∙ p)) r n v)
      | no ne ↦
          enqueued_other w s sender j b new (names j) c
            (t ∙ ap (λ m. set w.sched.shards m new) (sym (ok_fst o))) ne v
    ]
