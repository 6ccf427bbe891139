-- ===== src/Retry/Agreement.antt =====
-- evaluatePipelineRetry and the loop of runWithRetry of retry_policy.go decide alike.
use go_keylane.Base.{ℕ, ◌≡◌, ◌⊎◌, true, false}
use go_keylane.Base.Floats.{Float}
use go_keylane.Failure.Defs.{is_nil, Failure}
use go_keylane.Retry.Turns.{Surroundings, LoopState, Turn, finished, again}
use go_keylane.Retry.Pipeline.{PipelineRetryEvaluation, FailedAttempt}

module _ {ℓ κ} {A : Type ℓ} {W : Type κ} ⦃f : Float W⦄ where
  -- The attempt of the loop of runWithRetry that failed, as evaluatePipelineRetry sees it, which reads
  -- the clock after the attempt, at `later`.
  abbrev pub failed_attempt : Surroundings A W → ℕ → ℕ → LoopState W → FailedAttempt W
  failed_attempt env n later s = record {
    attempt = n;
    handler_err = s.last_err;
    budget = s.budget;
    ctx_err = env.ctx_after n;
    now = later;
    wall = env.wall_after n;
    sample = env.sample n;
  }

  -- The two decide alike: the same attempts are recorded, and the loop goes on where a retry is
  -- scheduled, but for a sleep that fails, and otherwise ends with the same final state.
  abbrev pub Agree : Surroundings A W → ℕ → PipelineRetryEvaluation W → Turn A W → Type κ
  Agree env n v (finished r) =
      (r.retry_attempts ≡ v.attempts)
      × (((v.schedule_retry ≡ true) × (is_nil (env.sleep n v.delay) ≡ false))
          ⊎ ((v.schedule_retry ≡ false) × (r.retry_final ≡ v.terminal_final)))
  Agree env n v (again t) = (v.schedule_retry ≡ true) × (t.attempts ≡ v.attempts)
