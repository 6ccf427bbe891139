-- ===== src/Backend/Tests.antt =====
-- Leases of one lane of one resource, of backend_coordinator.go.
use go_keylane.Base.{◌≡◌, ◌≤◌, refl, String, Bool, true, false, none, [], ◌∷◌}
use go_keylane.Registry.{find}
use go_keylane.Backend.Defs.{
  LaneState, LanePolicy, Context, BackendOperation, acquire, alter, new_coordinator,
}
use go_keylane.Backend.Holding.{
  Holding, done, acquired, released, after_acquire, release, none_held, lane_at, open_leases,
}
use go_keylane.Backend.Capacity.{held_within_limit}

abbrev no_match : String → String → Bool
no_match text part = false

abbrev background : Context
background = record { error = none; execution = none }

abbrev read_db : BackendOperation
read_db = record { resource = "db"; lane = "db_read"; stage = ""; operation = "get" }

abbrev two_at_once : LanePolicy
two_at_once = record { max_in_flight = 2; queue_limit = 0 }

abbrev start : Holding
start = none_held true (("db", ("db_read", two_at_once) ∷ []) ∷ [])

abbrev got_one : Holding
got_one = after_acquire start (acquire no_match start.coord background read_db)

abbrev got_two : Holding
got_two = after_acquire got_one (acquire no_match got_one.coord background read_db)

-- The older lease, released twice.
abbrev left : Holding
left = release (release got_two 1) 1

abbrev one_busy : LaneState
one_busy = record { policy = two_at_once; inflight = 1; queued = 0 }

held_within_limit_example :
    (one_busy.inflight ≡ open_leases "db" "db_read" left.leases)
    × (one_busy.inflight ≤ one_busy.policy.max_in_flight)
unfolding new_coordinator acquire release find lane_at alter
held_within_limit_example =
    held_within_limit true (("db", ("db_read", two_at_once) ∷ []) ∷ [])
      (released 1 (
        released 1
          (acquired no_match background read_db (acquired no_match background read_db done))))
      "db" "db_read" one_busy refl
