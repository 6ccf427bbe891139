-- ===== src/Job.antt =====
-- internal/core/job.go: the job that the scheduler routes and runs. A `time.Time` is its Unix
-- nanoseconds, and 0 is the zero time. `Run` is the client's function: what it returns, for the
-- context that it is given.
use go_keylane.Base.{ℕ, String, Option, none, some, Bool, false, Result, ok, err}
use go_keylane.Errors.{Error, nil_job_run}

-- `WorkerTiming` of internal/core/worker_timing.go.
pub record WorkerTiming : Type 0 where
  pub accepted_at : ℕ
  pub started_at : ℕ

pub record RunContext : Type 0 where
  pub cancelled : Bool
  pub timing : Option WorkerTiming

-- The error of a run, as the worker tells errors apart.
pub data RunResult : Type 0 where
  succeeded cancelled failed : RunResult

pub record InternalJob : Type 0 where
  pub key_hash : ℕ
  pub raw_key : String
  pub lane_id : ℕ
  pub run : Option (RunContext → RunResult)
  pub accepted_at : ℕ
  pub enqueued_at : ℕ
  pub use_worker_timing : Bool

-- `InternalJob{}`
abbrev pub zero_job : InternalJob
zero_job = record {
  key_hash = 0;
  raw_key = "";
  lane_id = 0;
  run = none;
  accepted_at = 0;
  enqueued_at = 0;
  use_worker_timing = false;
}

unfoldable pub new_internal_job : Option (RunContext → RunResult) → ℕ → ℕ → Result Error InternalJob
new_internal_job none key_hash lane_id = err nil_job_run
new_internal_job (some run) key_hash lane_id =
    ok (record zero_job { key_hash = key_hash; lane_id = lane_id; run = some run })
