-- ===== src/Retry/Tests.antt =====
-- A job of retry_policy.go whose first attempt fails with a retryable failure and whose second one
-- returns 7.
use go_keylane.Retry.Decide.{is_retryable_failure, decide_retry}
use go_keylane.Base.{
  ℕ, ◌+◌, ◌*◌, ◌≤◌, ◌≡◌, inr, refl, true, false, Option, none, some, ◌==◌, if◌then◌else◌, arith,
}
use go_keylane.Base.Ints.{to_nat}
use go_keylane.Base.Floats.{Fraction, fraction_float, Fraction-IsExact}
use go_keylane.Deadline.{with_runtime_at}
use go_keylane.Failure.Defs.{
  as_failure, FailureKind, Sentinel, ErrorValue, nil, sentinel, failure_error, is_nil,
}
use go_keylane.Failure.Classify.{FailurePolicy, classify_failure_with_policy}
use go_keylane.Retry.Policy.{RetryPolicy, zero_policy, normalize_retry_policy, retry_delay}
use go_keylane.Retry.Safety.{RetrySafety, Idempotency, safe, unsafe}
use go_keylane.Retry.Suppression.{
  LaneClass, RetrySuppressionPolicy, RetrySuppressionCheck, zero_suppression,
}
use go_keylane.Retry.Suppressing.{decide_retry_suppression}
use go_keylane.Retry.Trace.{RunWithRetryOpts, zero_failure}
use go_keylane.Retry.Turns.{Surroundings, LoopState, zero_budget, initial_state}
use go_keylane.Retry.Checks.{zero_snapshot}
use go_keylane.Retry.Loop.{run_with_retry}
use go_keylane.Retry.Turned.{starts}
use go_keylane.Retry.Attempts.{run_with_retry-settles, unsafe_once, permanent_once}
use go_keylane.Retry.Normal.{normalize_retry_policy-idempotent}
use go_keylane.Retry.Delay.{Within, bound, retry_delay-Within}
use go_keylane.Retry.Sparing.{IsLow, is_low_reason, decide_retry_suppression-spares}

abbrev no_policy : FailurePolicy
no_policy = record { classifier = none }

abbrev enabled_policy : RetryPolicy Fraction
enabled_policy = record zero_policy { enabled = true }

abbrev failing : FailureKind → ErrorValue
failing kind = failure_error kind (sentinel (Sentinel.foreign 1)) true true "backend"

abbrev marked : RetrySafety → Idempotency
marked safety = record {
  key = "order-1";
  safety = safety;
  scope = "";
  operation = "";
  allow_unsafe_retry = false;
}

abbrev opts : RetrySafety → RunWithRetryOpts Fraction
opts safety = record {
  key = "k";
  lane = "default";
  shard_id = 0;
  idempotency = marked safety;
  require_for_retry = true;
  safety_hook = none;
  suppression_policy = zero_suppression;
  snapshot = none;
}

-- The first attempt fails with a failure of the kind.
abbrev flaky : FailureKind → Surroundings ℕ Fraction
flaky kind = record {
  started = λ n. 100 * n;
  ended = λ n. 100 * n + 10;
  stamped = λ n. 100 * n + 10;
  wall_before = λ n. 100 * n;
  wall_after = λ n. 100 * n + 10;
  ctx_before = λ n. nil;
  ctx_after = λ n. nil;
  run = λ n b. if n == 1 then (none, failing kind) else (some 7, nil);
  sample = λ n. (1, 2);
  sleep = λ n d. nil;
}

abbrev answer : RetrySafety → Option ℕ
unfolding run_with_retry
answer safety =
    (run_with_retry no_policy enabled_policy (opts safety) zero_budget
      (flaky FailureKind.retryable)).val

answer_test : answer safe ≡ some 7
unfolding answer classify_failure_with_policy as_failure decide_retry with_runtime_at
    decide_retry_suppression
answer_test = refl

run_with_retry-settles_example :
    let r =
      run_with_retry no_policy enabled_policy
        (opts safe)
        zero_budget
        (flaky FailureKind.retryable) in
    (starts r.events ≤ to_nat (normalize_retry_policy enabled_policy).max_attempts)
    × (is_nil r.err ≡ r.retry_final.succeeded)
run_with_retry-settles_example =
    run_with_retry-settles no_policy enabled_policy (opts safe) zero_budget
      (flaky FailureKind.retryable) refl

unsafe_once_example :
    starts
      (run_with_retry no_policy enabled_policy
        (opts unsafe)
        zero_budget
        (flaky FailureKind.retryable)).events
    ≤ 1
unsafe_once_example =
    unsafe_once no_policy enabled_policy (opts unsafe) zero_budget (flaky FailureKind.retryable)
      refl (inr (refl, refl))

permanent_once_example :
    starts
      (run_with_retry no_policy enabled_policy
        (opts safe)
        zero_budget
        (flaky FailureKind.permanent)).events
    ≤ 1
unfolding is_retryable_failure classify_failure_with_policy as_failure normalize_retry_policy
permanent_once_example =
    permanent_once no_policy enabled_policy (opts safe) zero_budget (flaky FailureKind.permanent)
      refl (λ b. refl)

-- A deadline at 1 s, with the attempt from 100 ns to 110 ns.
abbrev failed_once : LoopState Fraction
failed_once =
    record (initial_state (record zero_budget { has_deadline = true; deadline = 1_000_000_000 })) {
      last_err = failing FailureKind.retryable;
    }

normalize_retry_policy-idempotent_example :
    normalize_retry_policy (normalize_retry_policy enabled_policy)
    ≡ normalize_retry_policy enabled_policy
normalize_retry_policy-idempotent_example =
    normalize_retry_policy-idempotent Fraction-IsExact enabled_policy

retry_delay-Within_example : Within (bound enabled_policy) (retry_delay enabled_policy 9 (1, 2))
retry_delay-Within_example =
    retry_delay-Within Fraction-IsExact enabled_policy 9 (1, 2) refl (omega arith)

abbrev pressured : RetrySuppressionCheck Fraction
pressured = record {
  key = "k";
  lane = "reports";
  shard_id = 0;
  attempt = 1;
  failure = zero_failure;
  retry = enabled_policy;
  budget = zero_budget;
  snapshot = record zero_snapshot {
    lane_class = LaneClass.background;
    pressure = record zero_snapshot.pressure { is_pressured = true };
  };
  idempotency = marked safe;
}

abbrev watchful : RetrySuppressionPolicy Fraction
watchful = record zero_suppression { enabled = true; suppress_non_critical_when_pressured = true }

decide_retry_suppression-spares_example : IsLow pressured.snapshot.lane_class
unfolding is_low_reason decide_retry_suppression
decide_retry_suppression-spares_example =
    decide_retry_suppression-spares watchful pressured refl refl
