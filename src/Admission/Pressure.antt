-- ===== src/Admission/Pressure.antt =====
-- internal/core/pressure.go, and laneQueueDepth of internal/core/admission_policy.go.
use go_keylane.Base.{ℕ, ◌+◌, ◌%◌, ◌^◌, Bool, not, ◌&&◌, List, [], ◌∷◌, leb, ltb, if◌then◌else◌}
use go_keylane.Base.Floats.{Float}
use go_keylane.Counters.{u64}
use go_keylane.LaneQueue.{LaneQueue, depth, capacity}
use go_keylane.Shard.{Shard, lane_depth}

pub record Pressure {ℓ} (W : Type ℓ) : Type ℓ where
  pub total_depth : ℕ
  pub total_capacity : ℕ
  pub total_in_flight : ℕ
  pub total_depth_ratio : W
  pub is_healthy : Bool
  pub is_pressured : Bool
  pub is_overloaded : Bool

module _ {ℓ} {W : Type ℓ} ⦃f : Float W⦄ where
  open f use {ratio, lt, le}

  unfoldable pub safe_ratio : ℕ → ℕ → W
  safe_ratio n d = if ltb d 1 then ratio 0 1 else ratio n d

  unfoldable pub classify_pressure : ℕ → ℕ → ℕ → Pressure W
  unfolding safe_ratio
  classify_pressure depth capacity in_flight =
      let r : W = safe_ratio depth capacity in
      let used : Bool = not (ltb capacity 1) in
      record {
        total_depth = depth;
        total_capacity = capacity;
        total_in_flight = in_flight;
        total_depth_ratio = r;
        is_healthy = used && lt r (ratio 7 10);
        is_pressured = used && (le (ratio 7 10) r && lt r (ratio 9 10));
        is_overloaded = used && le (ratio 9 10) r;
      }

-- What the loop has counted: depth, capacity, and jobs in flight, each a `uint64`.
pub record Totals : Type 0 where
  pub depth_sum : ℕ
  pub capacity_sum : ℕ
  pub in_flight_sum : ℕ

-- `shardDepth` and `shardCapacity`, from what the lanes before have given.
unfoldable pub shard_totals : List LaneQueue → ℕ → ℕ → ℕ × ℕ
unfolding depth capacity
shard_totals [] d c = (d, c)
shard_totals (q ∷ qs) d c = shard_totals qs (u64 (d + depth q)) (u64 (c + capacity q))

-- Every shard with its counter of `shardInflight`.
unfoldable pub totals_from : List (Shard × ℕ) → Totals → Totals
unfolding shard_totals
totals_from [] t = t
totals_from ((s, n) ∷ rest) t =
    let own : ℕ × ℕ = shard_totals s.lanes 0 0 in
    totals_from rest (record {
      depth_sum = u64 (t.depth_sum + own.0);
      capacity_sum = u64 (t.capacity_sum + own.1);
      in_flight_sum = u64 (t.in_flight_sum + u64 n);
    })

unfoldable pub collect_pressure_totals : List (Shard × ℕ) → Totals
unfolding totals_from
collect_pressure_totals shards =
    totals_from shards (record { depth_sum = 0; capacity_sum = 0; in_flight_sum = 0 })

unfoldable pub scheduler_pressure {ℓ} : {W : Type ℓ} ⦃f : Float W⦄ → List (Shard × ℕ) → Pressure W
unfolding classify_pressure collect_pressure_totals
scheduler_pressure shards =
    let t = collect_pressure_totals shards in
    classify_pressure t.depth_sum t.capacity_sum t.in_flight_sum

unfoldable pub lane_depths : List (Shard × ℕ) → ℕ → ℕ
unfolding lane_depth
lane_depths [] lane = 0
lane_depths ((s, n) ∷ rest) lane = lane_depth s lane + lane_depths rest lane

-- `total` is an `int`: as 64 bits it is negative from 2 ^ 63 on.
unfoldable pub lane_queue_depth : List (Shard × ℕ) → ℕ → ℕ
unfolding lane_depths
lane_queue_depth shards lane =
    let total : ℕ = u64 (lane_depths shards lane) in
    if leb (2 ^ 63) total then 0 else total % 2 ^ 32
