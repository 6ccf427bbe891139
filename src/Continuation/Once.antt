-- ===== src/Continuation/Once.antt =====
-- `resolve` of continuation_registry.go closes the channel of a continuation at most once.
use go_keylane.Base.{
  List, arith, ℕ, suc, ◌+◌, ◌≡◌, ◌⊎◌, inl, inr, refl, ap, sym, ◌∙◌, Option, none, some, length,
  Option-cases,
}
use go_keylane.Base.Dict.{lookup, erase, lookup-erase, length-erase_found, IsUnique}
use go_keylane.Counters.{u64}
use go_keylane.Continuation.Defs.{
  Registry, PendingEntry, OutcomeKind, ResolveOutcome, complete, fail, cancel, late, resolve,
  tallied,
}

-- A late call: it counts itself and changes nothing else.
abbrev pub late_result : Registry → Registry × ResolveOutcome × Option PendingEntry
late_result r = (record r { late_completions = u64 (r.late_completions + 1) }, late, none)

tallied-pending : (kind : OutcomeKind) (r : Registry) → (tallied kind r).0.pending ≡ r.pending
tallied-pending complete r = refl
tallied-pending fail r = refl
tallied-pending cancel r = refl

resolve_missing :
    (r : Registry) (id : ℕ) (kind : OutcomeKind)
    → lookup id r.pending ≡ none
    → resolve r id kind ≡ late_result r
unfolding resolve
resolve_missing r id kind e = rw (e, resolve) refl

lookup-erase_self : (id : ℕ) (m : List (ℕ × PendingEntry)) → lookup id (erase id m) ≡ none
lookup-erase_self id m = ground (arith, lookup-erase id id m)

gone : (r : Registry) (id : ℕ) (kind : OutcomeKind) → lookup id (resolve r id kind).0.pending ≡ none
unfolding resolve
gone r id kind = elim (Option-cases (lookup id r.pending)) [
  | inl e ↦ rw (e, resolve) e
  | inr (entry, e) ↦
      rw (e, resolve) (ap (lookup id) (tallied-pending kind _) ∙ lookup-erase_self id r.pending)
]

taken_out :
    (r : Registry) (id : ℕ) (kind : OutcomeKind) (entry : PendingEntry)
    → lookup id r.pending ≡ some entry
    → (resolve r id kind).0.pending ≡ erase id r.pending
unfolding resolve
taken_out r id kind entry e = rw (e, resolve) (tallied-pending kind _)

-- Where no id is pending twice: a call for an id that is not pending is late, and any other takes its
-- entry out, names it for the one close of its channel, and lowers the number of pending entries by
-- one. After either, every further call for the id is late and closes nothing.
pub resolve_once :
    (r : Registry) (id : ℕ) (first second : OutcomeKind)
    → IsUnique r.pending
    → (((lookup id r.pending ≡ none) × (resolve r id first ≡ late_result r))
        ⊎ ((entry : PendingEntry) × (lookup id r.pending ≡ some entry)
            × ((resolve r id first).2 ≡ some entry)
            × (length r.pending ≡ suc (length (resolve r id first).0.pending))))
      × (resolve (resolve r id first).0 id second ≡ late_result (resolve r id first).0)
unfolding resolve
resolve_once r id first second u = (
  elim (Option-cases (lookup id r.pending)) [
    | inl e ↦ inl (e, resolve_missing r id first e)
    | inr (entry, e) ↦ inr (
      entry,
      e,
      rw (e, resolve) refl,
      length-erase_found id r.pending entry u e
          ∙ ap (λ m. suc (length m)) (sym (taken_out r id first entry e)),
    )
  ],
  resolve_missing (resolve r id first).0 id second (gone r id first),
)
