-- ===== src/Deadline/Tests.antt =====
-- A budget of deadline_budget.go whose deadline passes.
use go_keylane.Base.{◌≡◌, refl, some, true, arith}
use go_keylane.Deadline.Defs.{
  DeadlineBudget, new_deadline_budget, with_queue_wait_at, with_runtime_at,
}
use go_keylane.Deadline.Clock.{IsCurrent, recorded-IsCurrent}

abbrev to_90 : DeadlineBudget
to_90 = new_deadline_budget (some 90) 10

late_test : (with_runtime_at to_90 85 95).exhausted ≡ true
unfolding with_runtime_at new_deadline_budget
late_test = refl

recorded-IsCurrent_example :
    IsCurrent (with_queue_wait_at to_90 30 40) 40 95
    × IsCurrent (with_runtime_at (with_queue_wait_at to_90 30 40) 20 40) 40 95
recorded-IsCurrent_example = recorded-IsCurrent to_90 30 20 40 95 (omega arith)
