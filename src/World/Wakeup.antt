-- ===== src/World/Wakeup.antt =====
-- No wakeup is lost while no context is cancelled: every step keeps the invariant.
use go_keylane.Base.{
  ℕ, ◌+◌, ◌≤◌, ◌≡◌, ◌≢◌, inl, inr, refl, sym, ap, ◌∙◌, Bool, true, false, not, some, List, [], ◌∷◌,
  Result, ok, err, arith, get_elem?, set, get_elem?-some, if◌then◌else◌,
}
use go_keylane.Errors.{Error}
use go_keylane.Job.{InternalJob}
use go_keylane.Shard.{Shard, has_work}
use go_keylane.Scheduler.State.{Scheduler}
use go_keylane.Scheduler.Process.{collect, run_job, cancel_rest}
use go_keylane.Scheduler.Lifecycle.{finish_stop, start, begin_stop}
use go_keylane.Scheduler.Enqueue.{enqueue, try_enqueue}
use go_keylane.Scheduler.Policy.{update_quota_policy}
use go_keylane.World.Defs.{
  Sender, submitter, trier, target, Worker, idle, received, running, exited, World, Step, submit,
  try_submit, notify, receive, skip, gather, run, cancel, requeue, finish, exit, start_up,
  stop_begins, stop_ends, set_quotas, after_enqueue, with_worker, after_collect, send,
}
use go_keylane.World.Tokens.{
  hit, count, held, tokens, count-cons, count-send, hit_self, hit_ne, held-running_ne,
}
use go_keylane.World.Storing.{Stored, enqueue-Stored, try_enqueue-Stored}
use go_keylane.World.Working.{
  Untouched, run_job-Untouched, cancel_rest-Untouched, start-Untouched, begin_stop-Untouched,
  finish_stop-Untouched, update_quota_policy-Untouched, Collects, collect-Collects,
}
use go_keylane.World.Invariant.{expected, Settled, Inv, Inv-keep, Inv-set, held-running_self}
use go_keylane.World.Moving.{
  tokens-worker, tokens-sched, tokens-notify, received_token, collect_tokens, same_held,
  submit_tokens, ok_fst, ok_snd,
}

sched-Inv : (w : World) (s : Scheduler) → Untouched w.sched s → Inv w → Inv (record w { sched = s })
sched-Inv w s u v = Inv-keep u.0 (λ j. tokens-sched w s j u.1) v

worker-Inv :
    (w : World) (s : Scheduler) (k : ℕ) (old new : Worker)
    → Untouched w.sched s
    → get_elem? w.workers k ≡ some old
    → ((j : ℕ) → held j new ≡ held j old)
    → Inv w
    → Inv (with_worker (record w { sched = s }) k new)
worker-Inv w s k old new u e h v =
    Inv-keep u.0 (λ j. tokens-worker w s k old new j e (omega (arith, h j, ap (count j) u.1))) v

receive-Inv :
    (w : World) (k i : ℕ) (rest : List ℕ)
    → get_elem? w.workers k ≡ some idle
    → w.sched.ready_ch ≡ i ∷ rest
    → Inv w
    → Inv (with_worker (record w { sched = record (w.sched) { ready_ch = rest } }) k (received i))
receive-Inv w k i rest e c v =
    Inv-keep refl
      (λ j.
        tokens-worker w (record (w.sched) { ready_ch = rest }) k idle (received i) j e
          (omega (arith, ap (count j) c, count-cons j i rest)))
      v

requeue-Inv :
    (w : World) (k i : ℕ)
    → get_elem? w.workers k ≡ some (running i [] true)
    → Inv w
    → Inv (with_worker (record w { sched = send w.sched i }) k idle)
requeue-Inv w k i e v =
    Inv-keep refl
      (λ j.
        tokens-worker w (send w.sched i) k (running i [] true) idle j e
          (omega (arith, count-send j i w.sched.ready_ch)))
      v

gather-Settled :
    (old new : Shard) (has_more : Bool) (n n' : ℕ)
    → Settled old n
    → 1 ≤ n
    → n' + 1 ≡ n + expected has_more
    → has_more ≡ has_work new
    → new.ready ≡ (if has_more then old.ready else false)
    → Settled new n'
gather-Settled old new has_more n n' s pos t m r = ground arith

gather-Inv :
    (w : World) (k i : ℕ) (old : Shard) (r : Scheduler × List InternalJob × Bool)
    → get_elem? w.workers k ≡ some (received i)
    → get_elem? w.sched.shards i ≡ some old
    → Collects w.sched i old r
    → Inv w
    → Inv (after_collect w k i r)
gather-Inv w k i old (s, batch, has_more) e found c v =
    Inv-set i old c.new found c.stored others
      (gather-Settled old c.new has_more (tokens i w) (tokens i after) (v.settled i old found)
        (received_token w k i e)
        (omega (arith, at i, hit_self i, held-running_self i batch has_more)) c.has_more c.ready)
      v
  where
    after : World
    after = with_worker (record w { sched = s }) k (running i batch has_more)

    at : (j : ℕ) → tokens j after + hit i j ≡ tokens j w + held j (running i batch has_more)
    at j = collect_tokens w s k i batch has_more j e c.same_channel

    others : (j : ℕ) → i ≢ j → tokens j after ≡ tokens j w
    others j ne = omega (arith, at j, hit_ne i j ne, held-running_ne i j batch has_more ne)

submit_ready :
    (w : World) (s : Scheduler) (sender : ℕ → Sender) (i : ℕ) (b : Bool) (old new : Shard)
    → ((k : ℕ) → target (sender k) ≡ k)
    → s.ready_ch ≡ w.sched.ready_ch
    → b ≡ not old.ready
    → get_elem? w.sched.shards i ≡ some old
    → s.shards ≡ set w.sched.shards i new
    → new.ready ≡ true
    → Inv w
    → Inv (after_enqueue sender w (s, ok (i, b)))
submit_ready w s sender i true old new names c b found stored ready v =
    Inv-set i old new found stored
      (λ j ne. submit_tokens w s sender i j (names i) c ∙ omega (arith, hit_ne i j ne))
      (record {
        token = ground (
          arith,
          submit_tokens w s sender i i (names i) c,
          hit_self i,
          (v.settled i old found).token,
        );
        awake = λ _. ready;
      })
      v
submit_ready w s sender i false old new names c b found stored ready v =
    Inv-set i old new found stored (λ j ne. tokens-sched w s j c)
      (record {
        token = ground (arith, tokens-sched w s i c, (v.settled i old found).token);
        awake = λ _. ready;
      })
      v

-- Whoever makes a shard ready gets the one token of it.
submit-Inv :
    (w : World) (sender : ℕ → Sender) (r : Scheduler × Result Error (ℕ × Bool))
    → ((k : ℕ) → target (sender k) ≡ k)
    → Stored w.sched r
    → Inv w
    → Inv (after_enqueue sender w r)
submit-Inv w sender (s, err e) names (c, inl (x, o, same)) v = sched-Inv w s (same, c) v
submit-Inv w sender (s, err e) names (c, inr (i, old, new, o, f, t, d, n)) v = cc
submit-Inv w sender (s, ok (i, b)) names (c, inl (x, o, same)) v = cc
submit-Inv w sender (s, ok (i, b)) names (c, inr (j, old, new, o, found, stored, ready, deeper)) v =
    submit_ready w s sender i b old new names c (ok_snd o)
      (ap (λ k. get_elem? w.sched.shards k) (ok_fst o) ∙ found)
      (stored ∙ ap (λ k. set w.sched.shards k new) (sym (ok_fst o))) ready v

-- Every step of a system in which no context is cancelled before a send keeps the invariant.
pub Step-Inv : {w u : World} → Step w u → Inv w → Inv u
Step-Inv {w} (submit job now) v =
    submit-Inv w submitter (enqueue w.sched job now) (λ k. refl) (enqueue-Stored w.sched job now) v
Step-Inv {w} (try_submit job now) v =
    submit-Inv w trier (try_enqueue w.sched job now) (λ k. refl)
      (try_enqueue-Stored w.sched job now) v
Step-Inv {w} (notify xs ys sender e room) v =
    Inv-keep refl (λ j. tokens-notify w xs ys sender j e) v
Step-Inv {w} (receive k i rest e c) v = receive-Inv w k i rest e c v
Step-Inv {w} (skip k i e far) v = absurd (omega (arith, v.bounded i far, received_token w k i e))
Step-Inv {w} (gather k i pooled now e near) v =
    let (old, found) = get_elem?-some w.sched.shards i near in
    gather-Inv w k i old (collect w.sched i pooled now) e found
      (collect-Collects w.sched i pooled now old found) v
Step-Inv {w} (run k i job jobs has_more tick e) v =
    worker-Inv w (run_job w.sched i job tick) k (running i (job ∷ jobs) has_more)
      (running i jobs has_more) (run_job-Untouched w.sched i job tick) e
      (same_held i jobs (job ∷ jobs) has_more) v
Step-Inv {w} (cancel k i jobs has_more e) v =
    worker-Inv w (cancel_rest w.sched i jobs) k (running i jobs has_more) (running i [] has_more)
      (cancel_rest-Untouched jobs i w.sched) e (same_held i [] jobs has_more) v
Step-Inv {w} (requeue k i e room) v = requeue-Inv w k i e v
Step-Inv {w} (finish k i e) v =
    worker-Inv w (w.sched) k (running i [] false) idle (refl, refl) e (λ j. refl) v
Step-Inv {w} (exit k e) v = worker-Inv w (w.sched) k idle exited (refl, refl) e (λ j. refl) v
Step-Inv {w} start_up v = sched-Inv w (start w.sched).0 (start-Untouched w.sched) v
Step-Inv {w} stop_begins v = sched-Inv w (begin_stop w.sched).0 (begin_stop-Untouched w.sched) v
Step-Inv {w} stop_ends v = sched-Inv w (finish_stop w.sched) (finish_stop-Untouched w.sched) v
Step-Inv {w} (set_quotas policy) v =
    sched-Inv w (update_quota_policy w.sched policy).0
      (update_quota_policy-Untouched w.sched policy) v
