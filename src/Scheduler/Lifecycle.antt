-- ===== src/Scheduler/Lifecycle.antt =====
-- Start of internal/core/scheduler.go, Stop of internal/core/shutdown.go as the steps between its
-- waits, and isDrained of internal/core/drain.go.
use go_keylane.Base.{Bool, false, not, ◌||◌, ◌&&◌, List, [], ◌∷◌, Result, ok, err, ◌==◌}
use go_keylane.Errors.{Error, stopped, queue_already_started}
use go_keylane.Shard.{Shard, has_work}
use go_keylane.Scheduler.State.{
  Scheduler, LifecycleState, state_new, state_running, state_stopping, state_stopped,
}

abbrev pub start_in : LifecycleState → Scheduler → Scheduler × Result Error (Unit {0})
start_in state_running s = (s, err queue_already_started)
start_in state_new s = (record s { state = state_running }, ok tt)
start_in _ s = (s, err stopped)

-- The workers start with the new state; they are not part of the record.
unfoldable pub start : Scheduler → Scheduler × Result Error (Unit {0})
start s = start_in s.state s

-- How a call of Stop goes on after its first critical section: it returns, waits for the call that is
-- stopping, or is the one that stops.
pub data StopPath : Type 0 where
  returns_nil waits stops : StopPath

abbrev pub stop_in : LifecycleState → Scheduler → Scheduler × StopPath
stop_in state_stopped s = (s, StopPath.returns_nil)
stop_in state_stopping s = (s, StopPath.waits)
stop_in _ s = (record s { state = state_stopping }, StopPath.stops)

unfoldable pub begin_stop : Scheduler → Scheduler × StopPath
begin_stop s = stop_in s.state s

-- The last critical section, after the workers have returned.
unfoldable pub finish_stop : Scheduler → Scheduler
finish_stop s = record s { state = state_stopped }

unfoldable pub any_shard_work : List Shard → Bool
unfolding has_work
any_shard_work [] = false
any_shard_work (shard ∷ shards) = has_work shard || any_shard_work shards

-- The shards are locked one after the other; here no one else moves in between.
unfoldable pub is_drained : Scheduler → Bool
unfolding any_shard_work
is_drained s = s.inflight == 0 && (not (any_shard_work s.shards) && s.inflight == 0)
