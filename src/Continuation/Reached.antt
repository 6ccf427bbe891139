-- ===== src/Continuation/Reached.antt =====
-- Every registry that the calls of continuation_registry.go reach from a new one.
use go_keylane.Base.{ℕ, ◌+◌, ◌≡◌, inl, inr, refl, sym, ◌∙◌, none, arith, Option-cases}
use go_keylane.Base.Dict.{
  lookup, erase, insert, erase-IsUnique, insert-IsUnique, length-erase_missing, length-erase_found,
}
use go_keylane.Continuation.Defs.{
  Registry, PendingEntry, OutcomeKind, complete, fail, cancel, held, alloc_id, register, resolve,
  tallied, uncount, new_registry, record_late, record_resume_rejected,
}
use go_keylane.Continuation.Limits.{
  one_at, IsCounted, count_at-erase_found, count_at-insert, held-insert, held-uncount,
  new_registry-IsCounted, register_cases,
}

-- An id from `allocID` is registered once, so it is not pending yet.
pub data Reached (most most_per_shard : ℕ) : Registry → Type 0 where
  fresh : Reached most most_per_shard (new_registry most most_per_shard)
  allotted :
      {r : Registry} → Reached most most_per_shard r → Reached most most_per_shard (alloc_id r).0
  registered :
      {r : Registry} (entry : PendingEntry)
      → Reached most most_per_shard r
      → lookup entry.id r.pending ≡ none
      → Reached most most_per_shard (register r entry).0
  resolved :
      {r : Registry} (id : ℕ) (kind : OutcomeKind)
      → Reached most most_per_shard r
      → Reached most most_per_shard (resolve r id kind).0
  refused :
      {r : Registry}
      → Reached most most_per_shard r
      → Reached most most_per_shard (record_resume_rejected r)
  late :
      {r : Registry} → Reached most most_per_shard r → Reached most most_per_shard (record_late r)

-- Where the entries, the counts and the limits are the same, so is what holds of them.
same-IsCounted :
    {r s : Registry}
    → IsCounted r
    → s.pending ≡ r.pending
    → s.per_shard ≡ r.per_shard
    → s.max_pending ≡ r.max_pending
    → s.max_pending_per_shard ≡ r.max_pending_per_shard
    → IsCounted s
same-IsCounted v a b c d = record {
  unique = rw a v.unique;
  counted = λ i. rw (a, b) (v.counted i);
  pending_le = rw (a, c) v.pending_le;
  shard_le = λ i. rw (a, d) (v.shard_le i);
}

register-IsCounted :
    (r : Registry) (entry : PendingEntry)
    → IsCounted r
    → lookup entry.id r.pending ≡ none
    → IsCounted (register r entry).0
unfolding one_at insert
register-IsCounted r entry v free = elim (register_cases r entry) [
  | inl e ↦ rw e v
  | inr (room, room_at, e) ↦ rw e (record {
    unique = insert-IsUnique entry.id entry r.pending v.unique;
    counted = λ i.
        held-insert i entry.shard_id (held entry.shard_id r.per_shard + 1) r.per_shard
        ∙ ground (arith, v.counted i, v.counted entry.shard_id)
        ∙ sym (count_at-insert i entry.id entry r.pending free);
    pending_le = ground (arith, length-erase_missing entry.id r.pending free, v.pending_le);
    shard_le = λ i.
        ground (arith, count_at-insert i entry.id entry r.pending free, v.shard_le i, v.counted i);
  })
]

tallied-IsCounted : (kind : OutcomeKind) (r : Registry) → IsCounted r → IsCounted (tallied kind r).0
tallied-IsCounted complete r v = same-IsCounted v refl refl refl refl
tallied-IsCounted fail r v = same-IsCounted v refl refl refl refl
tallied-IsCounted cancel r v = same-IsCounted v refl refl refl refl

resolve-IsCounted :
    (r : Registry) (id : ℕ) (kind : OutcomeKind) → IsCounted r → IsCounted (resolve r id kind).0
unfolding resolve one_at
resolve-IsCounted r id kind v = elim (Option-cases (lookup id r.pending)) [
  | inl e ↦ rw (e, resolve) (same-IsCounted v refl refl refl refl)
  | inr (entry, e) ↦
      let after : IsCounted (record r {
        pending = erase id r.pending;
        per_shard = uncount entry.shard_id r.per_shard;
      }) =
        record {
          unique = erase-IsUnique id r.pending v.unique;
          counted = λ i.
              held-uncount i entry.shard_id r.per_shard
              ∙ ground (
                arith,
                v.counted i,
                v.counted entry.shard_id,
                count_at-erase_found i id r.pending entry v.unique e,
              );
          pending_le =
              ground (arith, v.pending_le, length-erase_found id r.pending entry v.unique e);
          shard_le = λ i.
              ground (arith, v.shard_le i, count_at-erase_found i id r.pending entry v.unique e);
        } in
      rw (e, resolve) (tallied-IsCounted kind _ after)
]

-- In every registry that is reached from a new one, where an id is registered only while it is not
-- pending: `perShard` counts the pending entries of each shard, no id is pending twice, and neither
-- limit that binds is passed.
pub Reached-IsCounted :
    (most most_per_shard : ℕ) {r : Registry} → Reached most most_per_shard r → IsCounted r
unfolding alloc_id record_late record_resume_rejected
Reached-IsCounted most most_per_shard fresh = new_registry-IsCounted most most_per_shard
Reached-IsCounted most most_per_shard (allotted c) =
    same-IsCounted (Reached-IsCounted most most_per_shard c) refl refl refl refl
Reached-IsCounted most most_per_shard (registered {r} entry c free) =
    register-IsCounted r entry (Reached-IsCounted most most_per_shard c) free
Reached-IsCounted most most_per_shard (resolved {r} id kind c) =
    resolve-IsCounted r id kind (Reached-IsCounted most most_per_shard c)
Reached-IsCounted most most_per_shard (refused c) =
    same-IsCounted (Reached-IsCounted most most_per_shard c) refl refl refl refl
Reached-IsCounted most most_per_shard (late c) =
    same-IsCounted (Reached-IsCounted most most_per_shard c) refl refl refl refl
