-- ===== src/Lib.antt =====
-- go-keylane runs jobs by key and lane: a job's key picks a shard, its lane a queue in that shard, and
-- workers take shards off one channel and run a batch of each lane's oldest jobs, as many as the
-- lane's quota. The library models the scheduler of internal/core and the calls of submit.go and
-- try_submit.go that feed it, and beside it the registry of continuations, the coordinator of
-- backend leases, the deadline budget, the classification of failures, the retries of a job, its
-- future, the policies for admission and overload,
-- the controller of the quotas, and the signal to scale out.
--
-- The parts, and the code that each is about:
--   Base          lists, association lists, results and tests that the parts share.
--   Errors, Job   internal/core/errors.go, job.go and worker_timing.go.
--   Counters      internal/core/lane_counters.go, queue_wait.go and run_duration.go.
--   HotKey        internal/core/hotkey_tracker.go and the decisions of per_key_policy.go.
--   LaneQueue     internal/core/lane_queue.go: the ring of one lane. `contents` is the list of its jobs,
--                 oldest first; Fifo runs the ring beside that list.
--   Shard         internal/core/shard.go and enqueue.go: `enqueue_into_shard` is enqueueIntoShard, and
--                 `drain_lanes` the loop of process_shard.go over the lanes.
--   Registry      internal/core/lane_registry.go.
--   Quota         internal/core/quota_policy.go: `build_quota_policy_snapshot`.
--   Scheduler     internal/core/scheduler.go (State, Enqueue), process_shard.go and pool.go (Process),
--                 quota_policy.go (Policy), shutdown.go and drain.go (Lifecycle).
--   Continuation  continuation_registry.go: `resolve` also returns the entry whose channel it closes.
--   Backend       backend_coordinator.go, backend_lease.go, and the operation and decision of
--                 backend_resource.go and backend_admission.go. Holding keeps the leases that are out.
--   Deadline      deadline_budget.go, with the clock as an argument.
--   Failure       failure.go and the classification of deadline_budget.go and future.go: `ErrorValue` is a
--                 Go error with what it wraps, and `is` and the functions named as_ and has_ are
--                 errors.Is and errors.As on it.
--   Retry         retry_policy.go, idempotency.go, retry_suppression.go and retry_trace.go: Policy, Safety,
--                 Suppression, Suppressing and Decide are the decisions, Steps and Loop are runWithRetry,
--                 and Pipeline is evaluatePipelineRetry.
--   Future        future.go.
--   Admission     internal/core/admission_policy.go and pressure.go, with the fields of the scheduler that hold the policy
--                 apart in `AdmissionState`.
--   Overload      internal/core/overload_policy.go, with the fields of the scheduler that hold the policy
--                 apart in `OverloadState`.
--   Adaptive      internal/core/adaptive_quota_*.go and adaptive_quota.go: the controller that adjusts the
--                 quotas, a tick at a time. Its loop over the decisions updates the scheduler of Scheduler.
--   Scale         internal/core/scale_signal.go and scale_signal_policy.go: the advice to scale out, with
--                 the input that ScaleSignalSnapshot gathers as an argument, and no new configuration
--                 while it does. Log keeps the windows that were closed.
--   World         the scheduler with its submitters and workers: each step is one critical section,
--                 one send or one receive, so that a path is an interleaving of goroutines.
--
-- State is passed explicitly. What a mutex guards is one function; what runs between two locks is two
-- steps of World. A call that fails returns a result with the error. Goroutines are the entries of the
-- lists `senders` and `workers`; the ready channel is a list with the capacity of the number of shards.
--
-- Numbers are natural numbers. Counters of 64 bits wrap at 2 ^ 64, and a lane's id at 2 ^ 16. Sizes and
-- in-flight counts are not wrapped: they are bounded by the jobs in memory. Times are nanoseconds since
-- the epoch, with 0 for the zero time. No loop needs fuel: each one goes over a list or a bound, and the
-- retry loop over the attempts up to MaxAttempts. Go's signed integers are ℤ of Base.Ints, and a float64
-- is a value of a type with the operations of Base.Floats, whose laws are hypotheses where they are used.
--
-- Arguments stand for what is not in the repository: sort.Strings, strings.Contains, the hash of a key,
-- the capacity that sync.Pool gives back, the clock, and the job's function, which returns success,
-- cancellation or failure. A job that panics ends the process and is not modelled.
--
-- Not modelled: the signals for the overload policy and for adaptive quotas, shard
-- pressure, the gathering of the input of the scale signal, pipelines, the texts of errors, and the code that only reports: statistics,
-- hooks, metrics, tracing and the HTTP middleware.
pub mod Base
pub mod Errors
pub mod Failure
pub mod Retry
pub mod Future
pub mod Admission
pub mod Adaptive
pub mod Scale
pub mod Overload
pub mod Job
pub mod Counters
pub mod HotKey
pub mod Backend
pub mod Continuation
pub mod Deadline
pub mod LaneQueue
pub mod Shard
pub mod Registry
pub mod Quota
pub mod Scheduler
pub mod World
