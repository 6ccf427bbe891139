-- ===== src/World/Invariant.antt =====
-- The invariant of the ready channel: a shard has one token if it is ready and none if it is not, and
-- a shard with queued jobs is ready.
use go_keylane.Base.{
  ℕ, zero, suc, ◌≤◌, ◌≡◌, ◌≢◌, refl, sym, ap, ◌∙◌, subst, Bool, true, false, some, List, [], ◌∷◌,
  arith, length, get_elem?, set, length-set, get_elem?-set_self, get_elem?-set_ne, get_elem?-lt,
  ℕ_discrete,
}
use go_keylane.Shard.{Shard, has_work}
use go_keylane.Job.{InternalJob}
use go_keylane.World.Defs.{Worker, running, World}
use go_keylane.World.Tokens.{hit_self, held, count_workers, tokens}

abbrev pub expected : Bool → ℕ
expected true = 1
expected false = 0

-- A ready shard has one token, another has none, and a shard with work is ready.
pub record Settled (shard : Shard) (n : ℕ) : Type 0 where
  pub token : n ≡ expected shard.ready
  pub awake : has_work shard ≡ true → shard.ready ≡ true

pub record Inv (w : World) : Type 0 where
  pub settled :
      (i : ℕ) (shard : Shard) → get_elem? w.sched.shards i ≡ some shard → Settled shard (tokens i w)
  pub bounded : (i : ℕ) → length w.sched.shards ≤ i → tokens i w ≡ 0

pub Inv-keep :
    {w w' : World}
    → w'.sched.shards ≡ w.sched.shards
    → ((j : ℕ) → tokens j w' ≡ tokens j w)
    → Inv w
    → Inv w'
Inv-keep same t v = record {
  settled = λ i shard e.
      subst (Settled shard) (sym (t i))
        (v.settled i shard (ap (λ xs. get_elem? xs i) (sym same) ∙ e));
  bounded = λ i h. t i ∙ v.bounded i (subst (λ xs. length xs ≤ i) same h);
}

same_shard : {a b : Shard} → some a ≡ some b → a ≡ b
same_shard e = cc

pub Inv-set :
    {w w' : World} (i : ℕ) (old new : Shard)
    → get_elem? w.sched.shards i ≡ some old
    → w'.sched.shards ≡ set w.sched.shards i new
    → ((j : ℕ) → i ≢ j → tokens j w' ≡ tokens j w)
    → Settled new (tokens i w')
    → Inv w
    → Inv w'
Inv-set {w} {w'} i old new found stored t s v = record {
  settled = λ j shard e. elim (ℕ_discrete i j) [
    | yes p ↦ at_self j shard p (ap (λ xs. get_elem? xs j) (sym stored) ∙ e)
    | no n ↦ subst (Settled shard) (sym (t j n)) (
        v.settled j shard (
          sym (get_elem?-set_ne w.sched.shards i j new n)
          ∙ ap (λ xs. get_elem? xs j) (sym stored)
          ∙ e))
  ];
  bounded = λ j h.
      let far = outside j h in
      t j (λ p. absurd (omega (arith, get_elem?-lt w.sched.shards i found))) ∙ v.bounded j far;
}
  where
    outside : (j : ℕ) → length w'.sched.shards ≤ j → length w.sched.shards ≤ j
    outside j h = omega (arith, ap length stored, length-set w.sched.shards i new)

    at_self :
        (j : ℕ) (shard : Shard)
        → i ≡ j
        → get_elem? (set w.sched.shards i new) j ≡ some shard
        → Settled shard (tokens j w')
    at_self j shard p e =
        subst (λ k. Settled shard (tokens k w')) p
          (subst (λ x. Settled x (tokens i w'))
            (same_shard (
              sym (get_elem?-set_self w.sched.shards i new (get_elem?-lt w.sched.shards i found))
              ∙ ap (λ k. get_elem? (set w.sched.shards i new) k) p
              ∙ e))
            s)

pub held-le :
    (j : ℕ) (ws : List Worker) (k : ℕ) (old : Worker)
    → get_elem? ws k ≡ some old
    → held j old ≤ count_workers j ws
unfolding count_workers
held-le j [] k old h = cc
held-le j (w ∷ ws) zero old h = let same : w ≡ old = cc in omega (arith, ap (held j) same)
held-le j (w ∷ ws) (suc k) old h = omega (arith, held-le j ws k old h)

pub held-running_self :
    (i : ℕ) (jobs : List InternalJob) (has_more : Bool)
    → held i (running i jobs has_more) ≡ expected has_more
held-running_self i jobs true = hit_self i
held-running_self i jobs false = refl
