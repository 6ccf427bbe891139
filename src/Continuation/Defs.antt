-- ===== src/Continuation/Defs.antt =====
-- The registry of continuation_registry.go and its operations, each under the registry's lock.
use go_keylane.Base.{
  ℕ, ◌+◌, ◌-◌, Bool, ◌&&◌, Option, none, some, List, [], Result, ok, err, length, ltb, leb, ◌==◌,
  if◌then◌else◌,
}
use go_keylane.Base.Dict.{lookup, erase, insert}
use go_keylane.Counters.{u64}

-- `ContinuationOutcomeKind` of continuation.go
pub data OutcomeKind : Type 0 where
  complete fail cancel : OutcomeKind

pub data ResolveOutcome : Type 0 where
  completed failed cancelled late : ResolveOutcome

pub data ContinuationError : Type 0 where
  limit_exceeded : ContinuationError

pub record PendingEntry : Type 0 where
  pub id : ℕ
  pub shard_id : ℕ
  pub registered_at : ℕ

pub record Registry : Type 0 where
  pub max_pending : ℕ
  pub max_pending_per_shard : ℕ
  pub pending : List (ℕ × PendingEntry)
  pub next_id : ℕ
  pub completed_count : ℕ
  pub failed_count : ℕ
  pub cancelled_count : ℕ
  pub late_completions : ℕ
  pub resume_rejected : ℕ
  pub per_shard : List (ℕ × ℕ)

unfoldable pub new_registry : ℕ → ℕ → Registry
new_registry max_pending max_pending_per_shard = record {
  max_pending = max_pending;
  max_pending_per_shard = max_pending_per_shard;
  pending = [];
  next_id = 0;
  completed_count = 0;
  failed_count = 0;
  cancelled_count = 0;
  late_completions = 0;
  resume_rejected = 0;
  per_shard = [];
}

unfoldable pub alloc_id : Registry → Registry × ℕ
alloc_id r = let id = u64 (r.next_id + 1) in (record r { next_id = id }, id)

-- A read of `perShard`: 0 for a missing key.
unfoldable pub held : ℕ → List (ℕ × ℕ) → ℕ
unfolding lookup
held shard_id counts = elim (lookup shard_id counts) [ none ↦ 0 | some n ↦ n ]

-- Whether a limit binds and `count` has reached it.
abbrev pub at_limit : ℕ → ℕ → Bool
at_limit limit count = ltb 0 limit && leb limit count

unfoldable pub register : Registry → PendingEntry → Registry × Result ContinuationError (Unit {0})
unfolding held insert
register r entry =
    if at_limit r.max_pending (length r.pending)
    then (r, err limit_exceeded)
    else if at_limit r.max_pending_per_shard (held entry.shard_id r.per_shard)
    then (r, err limit_exceeded)
    else (
      record r {
        pending = insert entry.id entry r.pending;
        per_shard = insert entry.shard_id (held entry.shard_id r.per_shard + 1) r.per_shard;
      },
      ok tt,
    )

-- `perShard[id]--`, and the entry deleted at 0. A count that is 0 would become -1 in the source;
-- `register` counted each pending entry, so there is none.
unfoldable pub uncount : ℕ → List (ℕ × ℕ) → List (ℕ × ℕ)
unfolding held insert erase
uncount shard_id counts =
    if held shard_id counts - 1 == 0
    then erase shard_id counts
    else insert shard_id (held shard_id counts - 1) counts

abbrev pub tallied : OutcomeKind → Registry → Registry × ResolveOutcome
tallied complete r = (record r { completed_count = u64 (r.completed_count + 1) }, completed)
tallied fail r = (record r { failed_count = u64 (r.failed_count + 1) }, failed)
tallied cancel r = (record r { cancelled_count = u64 (r.cancelled_count + 1) }, cancelled)

-- The outcome, and the entry that was found and whose channel is closed.
unfoldable pub resolve :
    Registry → ℕ → OutcomeKind → Registry × ResolveOutcome × Option PendingEntry
unfolding lookup erase uncount
resolve r id kind = elim (lookup id r.pending) [
  | none ↦ (record r { late_completions = u64 (r.late_completions + 1) }, late, none)
  | some entry ↦
      let (r', outcome) = tallied kind (record r {
        pending = erase id r.pending;
        per_shard = uncount entry.shard_id r.per_shard;
      }) in
      (r', outcome, some entry)
]

unfoldable pub record_resume_rejected : Registry → Registry
record_resume_rejected r = record r { resume_rejected = u64 (r.resume_rejected + 1) }

unfoldable pub record_late : Registry → Registry
record_late r = record r { late_completions = u64 (r.late_completions + 1) }
