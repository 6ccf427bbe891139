-- ===== src/Retry/Bounds.antt =====
-- The loop of runWithRetry of retry_policy.go: what holds after its turns, and after its rounds.
use go_keylane.Base.{
  ℕ, zero, suc, ◌+◌, ◌-◌, ◌≤◌, ◌≡◌, refl, sym, ◌∙◌, Bool, true, false, Option, [], ◌∷◌, ◌++◌, arith,
  if◌then◌else◌,
}
use go_keylane.Base.Ints.{pos, int_leb}
use go_keylane.Base.Floats.{Float}
use go_keylane.Deadline.{DeadlineBudget, with_runtime_at}
use go_keylane.Failure.Defs.{ErrorValue, is_nil}
use go_keylane.Failure.Classify.{FailurePolicy, classify_failure_with_policy}
use go_keylane.Retry.Policy.{RetryPolicy}
use go_keylane.Retry.Safety.{RetrySafetyDecisionReason}
use go_keylane.Retry.Decide.{RetryEventKind, is_retryable_failure}
use go_keylane.Retry.Trace.{RetryObsRecord, RunWithRetryOpts, zero_failure}
use go_keylane.Retry.Turns.{
  Surroundings, RunResult, LoopState, Turn, finished, again, retry_obs_meta, budget_at,
}
use go_keylane.Retry.Checks.{safety_of}
use go_keylane.Retry.Steps.{stop_on_context}
use go_keylane.Retry.Loop.{turn, retry_loop}
use go_keylane.Retry.Turned.{starts, Turned, stop_on_context-Turned, after_run-Turned, starts_one}

module _ {ℓ κ} {A : Type ℓ} {W : Type κ} ⦃f : Float W⦄ (failures : FailurePolicy)
    (policy : RetryPolicy W) (opts : RunWithRetryOpts W) (start : DeadlineBudget)
    (env : Surroundings A W) where
  -- What turn `n` has seen where the loop goes on after it.
  abbrev pub MayRetry : ℕ → Type 0
  MayRetry n =
      (int_leb policy.max_attempts (pos n) ≡ false)
      × ((safety_of policy opts n).allow ≡ true)
      × ((b : DeadlineBudget) × (is_retryable_failure policy
              (classify_failure_with_policy failures (env.run n b).1)
            ≡ true))

  -- After turn `n`, which had `k` starts before it.
  abbrev Passed : ℕ → ℕ → Turn A W → Type 0
  Passed n k (finished r) = (starts r.events ≤ suc k) × (is_nil r.err ≡ r.retry_final.succeeded)
  Passed n k (again t) = (starts t.events ≡ suc k) × MayRetry n

  Turned-Passed : (n k : ℕ) (x : Turn A W) → Turned A (MayRetry n) (suc k) x → Passed n k x
  Turned-Passed n k (finished r) (q, c) = (omega arith, c)
  Turned-Passed n k (again t) h = h

  -- A turn that only returns adds no start.
  ended-Passed : (n k : ℕ) (x : Turn A W) → Turned A (false ≡ true) k x → Passed n k x
  ended-Passed n k (finished r) (q, c) = (omega arith, c)
  ended-Passed n k (again t) (q, p) = cc

  if-Passed :
      (n k : ℕ) (b : Bool) (x y : Turn A W)
      → (b ≡ true → Passed n k x)
      → (b ≡ false → Passed n k y)
      → Passed n k (if b then x else y)
  if-Passed n k true x y g h = g refl
  if-Passed n k false x y g h = h refl

  turn-Passed :
      (n : ℕ) (s : LoopState W)
      → Passed n (starts s.events) (turn failures policy opts start env n s)
  unfolding turn retry_obs_meta
  turn-Passed n s =
      let now : ℕ = env.started n in
      let budget : DeadlineBudget = budget_at start s.budget now in
      let out : Option A × ErrorValue = env.run n budget in
      let rec : RetryObsRecord =
        retry_obs_meta n zero_failure budget RetryEventKind.attempt_started in
      let used : DeadlineBudget =
        with_runtime_at budget (budget.runtime + (env.ended n - now)) (env.stamped n) in
      let ran : LoopState W = record s { budget = used; events = s.events ++ rec ∷ [] } in
      if-Passed n (starts s.events) (is_nil (env.ctx_before n)) _ _
        (λ e. Turned-Passed n (starts s.events) _ (
          after_run-Turned A (MayRetry n) (suc (starts s.events)) failures policy opts env n ran out
            (λ low can safe. (low, safe, (budget, can))) (starts_one s.events rec refl)))
        (λ e.
          ended-Passed n (starts s.events)
            (stop_on_context n (record s { budget = budget }) (env.ctx_before n) (env.wall_before n)
              RetrySafetyDecisionReason.no_reason)
            (stop_on_context-Turned A (false ≡ true) (starts s.events) n
              (record s { budget = budget }) (env.ctx_before n) (env.wall_before n)
              RetrySafetyDecisionReason.no_reason e refl))

  -- A loop with rounds for the attempts from `n` to the last one.
  abbrev pub Settled : ℕ → RunResult A W → Type 0
  Settled k r = (starts r.events ≤ k) × (is_nil r.err ≡ r.retry_final.succeeded)

  after_turn :
      (n k m : ℕ) (x : Turn A W) (rest : LoopState W → RunResult A W)
      → suc k ≤ m
      → Passed n k x
      → ((t : LoopState W) → starts t.events ≡ suc k → MayRetry n → Settled m (rest t))
      → Settled m (elim x [ finished r ↦ r | again t ↦ rest t ])
  after_turn n k m (finished r) rest le (q, c) go = (omega arith, c)
  after_turn n k m (again t) rest le (q, may) go = go t q may

  pub loop-Settled :
      (rounds n m : ℕ) (s : LoopState W)
      → ((l : ℕ) → rounds + n ≤ l → int_leb policy.max_attempts (pos l) ≡ true)
      → suc rounds + starts s.events ≤ m
      → Settled m (retry_loop failures policy opts start env (suc rounds) n s)
  unfolding retry_loop
  loop-Settled zero n m s last le =
      after_turn n (starts s.events) m (turn failures policy opts start env n s) _ (omega arith)
        (turn-Passed n s)
        (λ t q may. let absurd : true ≡ false = sym (last n (omega arith)) ∙ may.0 in cc)
  loop-Settled (suc rounds) n m s last le =
      after_turn n (starts s.events) m (turn failures policy opts start env n s) _ (omega arith)
        (turn-Passed n s)
        (λ t q may.
          loop-Settled rounds (n + 1) m t (λ l h. last l (omega arith)) (omega (arith, q)))

  -- Where the first attempt may not be retried, it is the only one.
  pub loop_once :
      (rounds : ℕ) (s : LoopState W)
      → starts s.events ≡ 0
      → (MayRetry 1 → false ≡ true)
      → Settled 1 (retry_loop failures policy opts start env (suc rounds) 1 s)
  unfolding retry_loop
  loop_once rounds s q never =
      after_turn 1 (starts s.events) 1 (turn failures policy opts start env 1 s) _ (omega arith)
        (turn-Passed 1 s) (λ t e may. let absurd : false ≡ true = never may in cc)
