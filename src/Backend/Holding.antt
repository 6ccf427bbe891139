-- ===== src/Backend/Holding.antt =====
-- The coordinator with the leases that are out: each call of acquire in backend_coordinator.go and of
-- Release in backend_lease.go is a step.
use go_keylane.Base.{
  ℕ, ◌+◌, String, Bool, true, false, not, ◌&&◌, Option, none, some, List, [], ◌∷◌, get_elem?,
  update, if◌then◌else◌,
}
use text.Mathlib.Text.{◌==◌ as str_eq}
use go_keylane.Registry.{find}
use go_keylane.Backend.Defs.{
  Coordinator, LanePolicy, LaneState, Context, BackendOperation, Acquired, granted, tracked,
  acquire, release_lane, new_coordinator,
}

-- A tracked lease, and whether its `sync.Once` has run.
pub record Held : Type 0 where
  pub resource : String
  pub lane : String
  pub done : Bool

pub record Holding : Type 0 where
  pub coord : Coordinator
  pub leases : List Held

abbrev pub after_acquire : Holding → Coordinator × Acquired → Holding
after_acquire h (c, granted (tracked resource lane) decision) = record {
  coord = c;
  leases = record { resource = resource; lane = lane; done = false } ∷ h.leases;
}
after_acquire h (c, _) = record h { coord = c }

-- `trackedBackendLease.Release` of the `k`-th lease.
unfoldable pub release : Holding → ℕ → Holding
unfolding release_lane
release h k = elim (get_elem? h.leases k) [
  | none ↦ h
  | some l ↦ if l.done then h else record {
    coord = release_lane h.coord l.resource l.lane;
    leases = update h.leases k (λ x. record x { done = true });
  }
]

-- What calls of acquire and Release reach from `h`. A lease may be released again.
pub data Calls (h : Holding) : Holding → Type 0 where
  done : Calls h h
  acquired :
      {g : Holding} (contains : String → String → Bool) (ctx : Context) (op : BackendOperation)
      → Calls h g
      → Calls h (after_acquire g (acquire contains g.coord ctx op))
  released : {g : Holding} (k : ℕ) → Calls h g → Calls h (release g k)

abbrev pub none_held : Bool → List (String × List (String × LanePolicy)) → Holding
none_held on resources = record { coord = new_coordinator on resources; leases = [] }

-- The state of a lane of a resource.
unfoldable pub lane_at : Coordinator → String → String → Option LaneState
unfolding find
lane_at c resource lane = elim (find resource c.resources) [
  | none ↦ none
  | some lanes ↦ find lane lanes
]

-- The leases of a lane that are not released yet.
unfoldable pub open_leases : String → String → List Held → ℕ
open_leases resource lane [] = 0
open_leases resource lane (l ∷ rest) =
    (if not l.done && (str_eq l.resource resource && str_eq l.lane lane) then 1 else 0)
    + open_leases resource lane rest
