-- ===== src/Continuation/Limits.antt =====
-- The counts of continuation_registry.go: `perShard` counts the pending entries of each shard, and no
-- limit is passed.
use go_keylane.Base.{
  ==→eq, ℕ, ◌+◌, ◌-◌, ◌≡◌, ◌≤◌, ◌⊎◌, inl, inr, refl, sym, ap, Bool, true, false, Option, none, some,
  List, [], ◌∷◌, ok, err, length, ◌==◌, if◌then◌else◌, arith, Bool-cases,
}
use go_keylane.Base.Dict.{lookup, erase, insert, IsUnique, lookup-erase, lookup-insert}
use go_keylane.Continuation.Defs.{
  Registry, PendingEntry, limit_exceeded, held, at_limit, register, uncount, new_registry,
}

-- One for an entry of the shard.
unfoldable pub one_at : ℕ → PendingEntry → ℕ
one_at shard_id entry = if entry.shard_id == shard_id then 1 else 0

unfoldable pub count_at : ℕ → List (ℕ × PendingEntry) → ℕ
unfolding one_at
count_at shard_id [] = 0
count_at shard_id ((id, entry) ∷ rest) = one_at shard_id entry + count_at shard_id rest

pub record IsCounted (r : Registry) : Type 0 where
  pub unique : IsUnique r.pending
  pub counted : (i : ℕ) → held i r.per_shard ≡ count_at i r.pending
  pub pending_le : (r.max_pending ≡ 0) ⊎ (length r.pending ≤ r.max_pending)
  pub shard_le :
      (i : ℕ) → (r.max_pending_per_shard ≡ 0) ⊎ (count_at i r.pending ≤ r.max_pending_per_shard)

pub count_at-erase_missing :
    (i k : ℕ) (m : List (ℕ × PendingEntry))
    → lookup k m ≡ none
    → count_at i (erase k m) ≡ count_at i m
unfolding count_at lookup erase
count_at-erase_missing i k [] h = refl
count_at-erase_missing i k ((j, e) ∷ m) h = ground (arith, count_at-erase_missing i k m)

found_here :
    (b : Bool) (x : PendingEntry) (m : Option PendingEntry) {e : PendingEntry}
    → (if b then some x else m) ≡ some e
    → b ≡ true
    → x ≡ e
found_here true x m h c = cc
found_here false x m h c = cc

found_later :
    (b : Bool) (x : PendingEntry) (m : Option PendingEntry) {e : PendingEntry}
    → (if b then some x else m) ≡ some e
    → b ≡ false
    → m ≡ some e
found_later true x m h c = cc
found_later false x m h c = h

pub count_at-erase_found :
    (i k : ℕ) (m : List (ℕ × PendingEntry)) (e : PendingEntry)
    → IsUnique m
    → lookup k m ≡ some e
    → count_at i m ≡ one_at i e + count_at i (erase k m)
unfolding count_at lookup erase IsUnique
count_at-erase_found i k [] e u h = cc
count_at-erase_found i k ((j, x) ∷ m) e u h = elim (Bool-cases (j == k)) [
  | inl c ↦
      let same : x ≡ e = found_here (j == k) x _ h c in
      let at : j ≡ k = ==→eq j k c in
      let gone : lookup k m ≡ none = rw (sym at) u.0 in
      rw c (omega (arith, ap (one_at i) same, count_at-erase_missing i k m gone))
  | inr c ↦ rw c (omega (arith, count_at-erase_found i k m e u.1 (found_later (j == k) x _ h c)))
]

pub held-insert :
    (i k n : ℕ) (counts : List (ℕ × ℕ))
    → held i (insert k n counts) ≡ (if i == k then n else held i counts)
unfolding held
held-insert i k n counts = ground (arith, lookup-insert k i n counts)

pub held-uncount :
    (i k : ℕ) (counts : List (ℕ × ℕ))
    → held i (uncount k counts) ≡ (if i == k then held k counts - 1 else held i counts)
unfolding held uncount
held-uncount i k counts =
    ground (arith, lookup-erase k i counts, held-insert i k (held k counts - 1) counts)

pub count_at-insert :
    (i k : ℕ) (e : PendingEntry) (m : List (ℕ × PendingEntry))
    → lookup k m ≡ none
    → count_at i (insert k e m) ≡ one_at i e + count_at i m
unfolding count_at insert
count_at-insert i k e m h = ap (λ n. one_at i e + n) (count_at-erase_missing i k m h)

-- A new registry counts nothing.
pub new_registry-IsCounted :
    (most most_per_shard : ℕ) → IsCounted (new_registry most most_per_shard)
unfolding new_registry count_at held lookup IsUnique
new_registry-IsCounted most most_per_shard = record {
  unique = tt;
  counted = λ i. refl;
  pending_le = inr (omega arith);
  shard_le = λ i. inr (omega arith);
}

-- The three ways of `register`.
pub register_cases :
    (r : Registry) (entry : PendingEntry)
    → (register r entry ≡ (r, err limit_exceeded))
      ⊎ ((at_limit r.max_pending (length r.pending) ≡ false)
          × (at_limit r.max_pending_per_shard (held entry.shard_id r.per_shard) ≡ false)
          × (register r entry ≡ (
            record r {
              pending = insert entry.id entry r.pending;
              per_shard = insert entry.shard_id (held entry.shard_id r.per_shard + 1) r.per_shard;
            },
            ok tt,
          )))
unfolding register
register_cases r entry = elim (Bool-cases (at_limit r.max_pending (length r.pending))) [
  | inl c ↦ inl (rw (c, register) refl)
  | inr c ↦ elim (Bool-cases (at_limit r.max_pending_per_shard (held entry.shard_id r.per_shard))) [
    | inl d ↦ inl (rw (c, d, register) refl)
    | inr d ↦ inr (c, d, rw (c, d, register) refl)
  ]
]
