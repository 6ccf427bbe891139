-- ===== src/World/Abandoned.antt =====
-- What becomes of a shard whose one token is thrown away: the `select` of Submit in submit.go may take
-- `<-ctx.Done()` after the enqueue made the shard ready.
use go_keylane.Base.{
  ℕ, ◌≡◌, ◌≤◌, refl, sym, ap, ◌∙◌, true, false, some, List, [], ◌∷◌, ◌++◌, get_elem?,
  get_elem?-some, arith,
}
use go_keylane.Shard.{Shard, total_depth}
use go_keylane.Scheduler.Enqueue.{enqueue, try_enqueue}
use go_keylane.Scheduler.Process.{collect, run_job, cancel_rest}
use go_keylane.Scheduler.Lifecycle.{start, begin_stop, finish_stop}
use go_keylane.Scheduler.Policy.{update_quota_policy}
use go_keylane.HotKey.{HotKeyConfig}
use go_keylane.World.Defs.{
  Sender, submitter, trier, idle, received, running, exited, World, send, Step, submit, try_submit,
  notify, receive, skip, gather, run, cancel, requeue, finish, exit, start_up, stop_begins,
  stop_ends, set_quotas, Escape, abandon, give_up, default, AnySteps, stay, step, escape, Steps,
}
use go_keylane.World.Tokens.{count-cons, count-send, hit_self, count, tokens}
use go_keylane.World.Storing.{enqueue-Stored, try_enqueue-Stored}
use go_keylane.World.Working.{
  run_job-Untouched, cancel_rest-Untouched, start-Untouched, begin_stop-Untouched,
  finish_stop-Untouched, update_quota_policy-Untouched, collect-Collects,
}
use go_keylane.Scheduler.State.{Obs}
use go_keylane.World.Initial.{initial, initial-Inv, Steps-Inv}
use go_keylane.Registry.{LaneRegistry}
use go_keylane.World.Invariant.{Inv}
use go_keylane.World.Moving.{tokens-notify, same_held}
use go_keylane.World.Stranded.{
  Stranded, Stranded-keep, sched-Stranded, worker-Stranded, gather-Stranded, same_shard,
  skip_tokens, give_up_tokens, tokens-dropped, submit-Stranded,
}

Step-Stranded : {i d : ℕ} {w u : World} → Step w u → Stranded i d w → Stranded i d u
Step-Stranded {w = w} (submit job now) v =
    submit-Stranded w submitter (enqueue w.sched job now) (λ k. refl)
      (enqueue-Stored w.sched job now) v
Step-Stranded {w = w} (try_submit job now) v =
    submit-Stranded w trier (try_enqueue w.sched job now) (λ k. refl)
      (try_enqueue-Stored w.sched job now) v
Step-Stranded {i} {w = w} (notify xs ys sender e room) v =
    Stranded-keep v (omega (arith, tokens-notify w xs ys sender i e)) refl
Step-Stranded {i} {w = w} (receive k j rest e c) v =
    worker-Stranded w (record (w.sched) { ready_ch = rest }) k idle (received j) refl e
      (omega (arith, ap (count i) c, count-cons i j rest)) v
Step-Stranded {i} {w = w} (skip k j e far) v =
    Stranded-keep v (omega (arith, skip_tokens w k j i e)) refl
Step-Stranded {w = w} (gather k j pooled now e near) v =
    let (old, found) = get_elem?-some w.sched.shards j near in
    gather-Stranded w k j old (collect w.sched j pooled now) e
      (collect-Collects w.sched j pooled now old found) v
Step-Stranded {i} {w = w} (run k j job jobs has_more tick e) v =
    worker-Stranded w (run_job w.sched j job tick) k (running j (job ∷ jobs) has_more)
      (running j jobs has_more) (run_job-Untouched w.sched j job tick).0 e
      (omega (
        arith,
        ap (count i) (run_job-Untouched w.sched j job tick).1,
        same_held j jobs (job ∷ jobs) has_more i,
      ))
      v
Step-Stranded {i} {w = w} (cancel k j jobs has_more e) v =
    worker-Stranded w (cancel_rest w.sched j jobs) k (running j jobs has_more)
      (running j [] has_more) (cancel_rest-Untouched jobs j w.sched).0 e
      (omega (
        arith,
        ap (count i) (cancel_rest-Untouched jobs j w.sched).1,
        same_held j [] jobs has_more i,
      ))
      v
Step-Stranded {i} {w = w} (requeue k j e room) v =
    worker-Stranded w (send w.sched j) k (running j [] true) idle refl e
      (omega (arith, count-send i j w.sched.ready_ch)) v
Step-Stranded {w = w} (finish k j e) v =
    worker-Stranded w (w.sched) k (running j [] false) idle refl e refl v
Step-Stranded {w = w} (exit k e) v = worker-Stranded w (w.sched) k idle exited refl e refl v
Step-Stranded {w = w} start_up v = sched-Stranded w (start w.sched).0 (start-Untouched w.sched) v
Step-Stranded {w = w} stop_begins v =
    sched-Stranded w (begin_stop w.sched).0 (begin_stop-Untouched w.sched) v
Step-Stranded {w = w} stop_ends v =
    sched-Stranded w (finish_stop w.sched) (finish_stop-Untouched w.sched) v
Step-Stranded {w = w} (set_quotas policy) v =
    sched-Stranded w (update_quota_policy w.sched policy).0
      (update_quota_policy-Untouched w.sched policy) v

Escape-Stranded : {i d : ℕ} {w u : World} → Escape w u → Stranded i d w → Stranded i d u
Escape-Stranded {i} {w = w} (abandon xs ys j e) v =
    Stranded-keep v (omega (arith, tokens-dropped w xs ys (submitter j) i e)) refl
Escape-Stranded {i} {w = w} (give_up k j e) v =
    Stranded-keep v (omega (arith, give_up_tokens w k j i e)) refl
Escape-Stranded {i} {w = w} (default xs ys j e full) v =
    Stranded-keep v (omega (arith, tokens-dropped w xs ys (trier j) i e)) refl

AnySteps-Stranded : {i d : ℕ} {w u : World} → Stranded i d w → AnySteps w u → Stranded i d u
AnySteps-Stranded v stay = v
AnySteps-Stranded v (step more s) = Step-Stranded s (AnySteps-Stranded v more)
AnySteps-Stranded v (escape more s) = Escape-Stranded s (AnySteps-Stranded v more)

-- A submitter about to send is the one token of its shard.
abandon-Stranded :
    (w : World) (xs ys : List Sender) (i : ℕ) (shard : Shard)
    → Inv w
    → w.senders ≡ xs ++ submitter i ∷ ys
    → get_elem? w.sched.shards i ≡ some shard
    → Stranded i (total_depth shard) (record w { senders = xs ++ ys })
abandon-Stranded w xs ys i shard v e found =
    let one = (v.settled i shard found).token in
    let dropped = tokens-dropped w xs ys (submitter i) i e in
    let self = hit_self i in
    record {
      shard = shard;
      found = found;
      ready = ground (arith, one, dropped, self);
      no_token = ground (arith, one, dropped, self);
      deep = omega arith;
    }

-- Take any state that a new queue reaches while no context is cancelled before a send, and in it a
-- Submit whose enqueue made shard `i` ready. If its `select` takes `<-ctx.Done()`, then after any
-- further steps, of whatever kind, the shard is still marked ready, no one has or will send its id,
-- and it holds at least the jobs that it held: they never run.
pub abandoned_shard_stuck :
    {w u : World} (shard_count worker_count queue_size : ℕ) (reg : LaneRegistry) (obs : Obs)
    (hot_key : HotKeyConfig)
    → Steps (initial shard_count worker_count queue_size reg obs hot_key) w
    → (xs ys : List Sender) (i : ℕ) (before after : Shard) → w.senders ≡ xs ++ submitter i ∷ ys
    → get_elem? w.sched.shards i ≡ some before
    → AnySteps (record w { senders = xs ++ ys }) u
    → get_elem? u.sched.shards i ≡ some after
    → (after.ready ≡ true) × (tokens i u ≡ 0) × (total_depth before ≤ total_depth after)
abandoned_shard_stuck {w} shard_count worker_count queue_size reg obs hot_key steps xs ys i before
      after e found more later =
    let v = Steps-Inv (initial-Inv shard_count worker_count queue_size reg obs hot_key) steps in
    let stuck = AnySteps-Stranded (abandon-Stranded w xs ys i before v e found) more in
    let same : stuck.shard ≡ after = same_shard (sym stuck.found ∙ later) in
    (
      ap (λ (x : Shard). x.ready) (sym same) ∙ stuck.ready,
      stuck.no_token,
      omega (arith, stuck.deep, ap total_depth same),
    )
