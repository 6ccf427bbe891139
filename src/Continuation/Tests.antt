-- ===== src/Continuation/Tests.antt =====
-- A registry of continuation_registry.go with one place.
use go_keylane.Base.{ℕ, suc, ◌≡◌, ◌⊎◌, refl, some, none, length, err}
use go_keylane.Base.Dict.{lookup, IsUnique, insert, erase}
use go_keylane.Continuation.Defs.{
  Registry, PendingEntry, complete, cancel, limit_exceeded, new_registry, alloc_id, register,
  resolve,
}
use go_keylane.Continuation.Limits.{IsCounted}
use go_keylane.Continuation.Reached.{fresh, allotted, registered, Reached-IsCounted}
use go_keylane.Continuation.Once.{late_result, resolve_once}

abbrev entry : ℕ → PendingEntry
entry n = record { id = n; shard_id = 4; registered_at = 9 }

abbrev one_place : Registry
one_place = (register (alloc_id (new_registry 1 0)).0 (entry 1)).0

full_test : (register one_place (entry 2)).1 ≡ err limit_exceeded
unfolding register alloc_id new_registry erase
full_test = refl

Reached-IsCounted_example : IsCounted one_place
unfolding lookup alloc_id new_registry
Reached-IsCounted_example = Reached-IsCounted 1 0 (registered (entry 1) (allotted fresh) refl)

one_place-IsUnique : IsUnique one_place.pending
unfolding IsUnique lookup register alloc_id new_registry insert erase
one_place-IsUnique = (refl, tt)

resolve_once_example :
    (((lookup 1 one_place.pending ≡ none) × (resolve one_place 1 complete ≡ late_result one_place))
      ⊎ ((e : PendingEntry) × (lookup 1 one_place.pending ≡ some e)
          × ((resolve one_place 1 complete).2 ≡ some e)
          × (length one_place.pending ≡ suc (length (resolve one_place 1 complete).0.pending))))
    × (resolve (resolve one_place 1 complete).0 1 cancel
        ≡ late_result (resolve one_place 1 complete).0)
resolve_once_example = resolve_once one_place 1 complete cancel one_place-IsUnique
