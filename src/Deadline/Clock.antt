-- ===== src/Deadline/Clock.antt =====
-- The stored remainder of deadline_budget.go against the one that is read from the clock.
use go_keylane.Base.{ℕ, ◌+◌, ◌-◌, ◌≡◌, ◌≤◌, true, not, ◌||◌, arith}
use go_keylane.Deadline.Defs.{
  DeadlineBudget, refresh_at, with_queue_wait_at, with_runtime_at, remaining_at, is_exhausted_at,
  has_remaining_at,
}

-- What a budget that was recorded at `now` says, and what the clock says of it at `later`.
pub record IsCurrent (b : DeadlineBudget) (now later : ℕ) : Type 0 where
  pub remaining : b.remaining ≡ remaining_at b now
  pub exhausted : b.exhausted ≡ is_exhausted_at b now
  pub falls : remaining_at b now ≤ remaining_at b later + (later - now)
  pub lasts : remaining_at b later ≤ remaining_at b now
  pub stays : (not (is_exhausted_at b now) || is_exhausted_at b later) ≡ true
  pub none_left : (not (is_exhausted_at b now) || not (has_remaining_at b 1 later)) ≡ true

refresh_at-IsCurrent :
    (b : DeadlineBudget) (now later : ℕ) → now ≤ later → IsCurrent (refresh_at b now) now later
unfolding refresh_at remaining_at is_exhausted_at has_remaining_at
refresh_at-IsCurrent b now later h = record {
  remaining = ground arith;
  exhausted = ground arith;
  falls = ground arith;
  lasts = ground arith;
  stays = ground arith;
  none_left = ground arith;
}

-- A budget whose queue wait, and then whose runtime, is recorded at `now`: its remaining time and its
-- exhaustion are those of the clock at `now`; up to any later time the remaining time falls by at most
-- the time that passes and never rises, an exhausted budget stays exhausted, and then it does not have
-- a positive amount left.
pub recorded-IsCurrent :
    (b : DeadlineBudget) (wait runtime now later : ℕ)
    → now ≤ later
    → IsCurrent (with_queue_wait_at b wait now) now later
      × IsCurrent (with_runtime_at (with_queue_wait_at b wait now) runtime now) now later
unfolding with_queue_wait_at with_runtime_at
recorded-IsCurrent b wait runtime now later h = (
  refresh_at-IsCurrent (record b { queue_wait = wait }) now later h,
  refresh_at-IsCurrent (record (with_queue_wait_at b wait now) { runtime = runtime }) now later h,
)
