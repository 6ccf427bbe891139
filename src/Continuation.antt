-- ===== src/Continuation.antt =====
-- continuation_registry.go: the bounded store of pending continuations. A limit of 0 is the source's
-- limit of 0 or below, which does not bind. `closeDone` is the client's; `resolve` names the entry
-- whose channel it closes.
mod Defs
pub mod Limits
pub mod Reached
pub mod Once
pub mod Tests
pub use Defs.{Registry, PendingEntry, OutcomeKind, ResolveOutcome, ContinuationError}
unfoldable pub use Defs.{new_registry, alloc_id, register, resolve}
