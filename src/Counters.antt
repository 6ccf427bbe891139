-- ===== src/Counters.antt =====
-- internal/core/lane_counters.go, queue_wait.go and run_duration.go: the counters of a lane and the
-- accumulators of the queue-wait and run-duration samples. A counter is an atomic of 64 bits, so it
-- wraps; the int64 ones only count up, and are read as their bit patterns.
use go_keylane.Base.{ℕ, ◌+◌, ◌%◌, ◌^◌, Option, none, some, if◌then◌else◌, ltb, Bool, true, false}
use go_keylane.Errors.{Error, queue_full}

abbrev pub u64 : ℕ → ℕ
u64 n = n % 2 ^ 64

-- `atomicMaxUint64`: the compare-and-swap loop, whose retries end with the larger value stored.
unfoldable pub atomic_max : ℕ → ℕ → ℕ
atomic_max old value = if ltb old value then value else old

pub record Accum : Type 0 where
  pub count : ℕ
  pub total_nanos : ℕ
  pub max_nanos : ℕ

abbrev pub new_accum : Accum
new_accum = record { count = 0; total_nanos = 0; max_nanos = 0 }

unfoldable pub record_sample : Accum → ℕ → Accum
unfolding atomic_max
record_sample a nanos = record {
  count = u64 (a.count + 1);
  total_nanos = u64 (a.total_nanos + nanos);
  max_nanos = atomic_max a.max_nanos nanos;
}

pub record LaneCounters : Type 0 where
  pub submitted : ℕ
  pub accepted : ℕ
  pub rejected : ℕ
  pub pressure_admission_rejected : ℕ
  pub canceled : ℕ
  pub gc_queue_wait : Accum
  pub gc_run : Accum
  pub submitted_total : ℕ
  pub completed_total : ℕ
  pub failed_total : ℕ
  pub queue_full_total : ℕ
  pub queue_wait_total_nanos : ℕ
  pub queue_wait_count : ℕ

abbrev pub new_lane_counters : LaneCounters
new_lane_counters = record {
  submitted = 0;
  accepted = 0;
  rejected = 0;
  pressure_admission_rejected = 0;
  canceled = 0;
  gc_queue_wait = new_accum;
  gc_run = new_accum;
  submitted_total = 0;
  completed_total = 0;
  failed_total = 0;
  queue_full_total = 0;
  queue_wait_total_nanos = 0;
  queue_wait_count = 0;
}

unfoldable pub record_lane_admission_attempt : LaneCounters → LaneCounters
record_lane_admission_attempt c = record c { submitted = u64 (c.submitted + 1) }

unfoldable pub record_lane_admission_rejected : LaneCounters → LaneCounters
record_lane_admission_rejected c = record c { rejected = u64 (c.rejected + 1) }

abbrev is_queue_full : Error → Bool
is_queue_full queue_full = true
is_queue_full _ = false

-- The argument is the error of enqueueIntoShard, if it returned one.
unfoldable pub record_lane_admission_result : Option Error → LaneCounters → LaneCounters
record_lane_admission_result none c = record c {
  accepted = u64 (c.accepted + 1);
  submitted_total = u64 (c.submitted_total + 1);
}
record_lane_admission_result (some e) c =
    let c' = record c { rejected = u64 (c.rejected + 1) } in
    if is_queue_full e then record c' { queue_full_total = u64 (c.queue_full_total + 1) } else c'

unfoldable pub record_pressure_admission_rejected : LaneCounters → LaneCounters
record_pressure_admission_rejected c = record c {
  rejected = u64 (c.rejected + 1);
  pressure_admission_rejected = u64 (c.pressure_admission_rejected + 1);
}
