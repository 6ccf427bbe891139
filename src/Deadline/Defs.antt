-- ===== src/Deadline/Defs.antt =====
-- The budget of deadline_budget.go, with the clock as an argument.
use go_keylane.Base.{
  ℕ, ◌-◌, Bool, true, false, not, Option, none, some, ltb, leb, ◌==◌, if◌then◌else◌,
}

pub record DeadlineBudget : Type 0 where
  pub started_at : ℕ
  pub deadline : ℕ
  pub has_deadline : Bool
  pub queue_wait : ℕ
  pub runtime : ℕ
  pub remaining : ℕ
  pub exhausted : Bool

unfoldable pub refresh_at : DeadlineBudget → ℕ → DeadlineBudget
refresh_at b now =
    if b.has_deadline
    then record b { remaining = b.deadline - now; exhausted = (b.deadline - now) == 0 }
    else record b { remaining = 0; exhausted = false }

abbrev started : ℕ → DeadlineBudget
started now = record {
  started_at = now;
  deadline = 0;
  has_deadline = false;
  queue_wait = 0;
  runtime = 0;
  remaining = 0;
  exhausted = false;
}

-- The deadline of the context is `none` where there is no context, or it has none.
unfoldable pub new_deadline_budget : Option ℕ → ℕ → DeadlineBudget
unfolding refresh_at
new_deadline_budget none now = refresh_at (started now) now
new_deadline_budget (some deadline) now =
    refresh_at (record (started now) { has_deadline = true; deadline = deadline }) now

unfoldable pub with_queue_wait_at : DeadlineBudget → ℕ → ℕ → DeadlineBudget
unfolding refresh_at
with_queue_wait_at b wait now = refresh_at (record b { queue_wait = wait }) now

unfoldable pub with_runtime_at : DeadlineBudget → ℕ → ℕ → DeadlineBudget
unfolding refresh_at
with_runtime_at b runtime now = refresh_at (record b { runtime = runtime }) now

unfoldable pub remaining_at : DeadlineBudget → ℕ → ℕ
remaining_at b now = if b.has_deadline then b.deadline - now else 0

unfoldable pub has_remaining_at : DeadlineBudget → ℕ → ℕ → Bool
unfolding remaining_at
has_remaining_at b least now = leb least (remaining_at b now)

-- `!now.Before(b.Deadline)`
unfoldable pub is_exhausted_at : DeadlineBudget → ℕ → Bool
is_exhausted_at b now = if b.has_deadline then not (ltb now b.deadline) else false
