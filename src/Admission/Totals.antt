-- ===== src/Admission/Totals.antt =====
-- The pressure's depth of internal/core/pressure.go is the sum of the lanes' depths of
-- internal/core/admission_policy.go.
use go_keylane.Base.{
  ℕ, zero, suc, ◌+◌, ◌^◌, ◌<◌, ◌≡◌, refl, sym, ap, ◌∙◌, List, [], ◌∷◌, All, length, get_elem?, none,
  some, arith,
}
use go_keylane.Counters.{u64}
use go_keylane.Quota.{tabulate}
use go_keylane.LaneQueue.{LaneQueue, depth}
use go_keylane.Shard.{Shard, sum, lane_depth, total_depth, total_depths}
use go_keylane.Admission.Pressure.{
  Totals, shard_totals, totals_from, collect_pressure_totals, lane_depths, lane_queue_depth,
}

-- The depth of all shards, as a number without a bound.
unfoldable pub all_depths : List (Shard × ℕ) → ℕ
unfolding total_depth
all_depths [] = 0
all_depths ((s, n) ∷ rest) = total_depth s + all_depths rest

shard_totals-depth :
    (qs : List LaneQueue) (d c : ℕ)
    → d + total_depths qs < 2 ^ 64
    → (shard_totals qs d c).0 ≡ d + total_depths qs
unfolding shard_totals total_depths
shard_totals-depth [] d c h = omega arith
shard_totals-depth (q ∷ qs) d c h =
    let fits : u64 (d + depth q) ≡ d + depth q = omega arith in
    let rest = shard_totals-depth qs (u64 (d + depth q)) _ (omega arith) in rest ∙ (omega arith)

totals_from-depth :
    (shards : List (Shard × ℕ)) (t : Totals)
    → t.depth_sum + all_depths shards < 2 ^ 64
    → (totals_from shards t).depth_sum ≡ t.depth_sum + all_depths shards
unfolding totals_from all_depths total_depth
totals_from-depth [] t h = omega arith
totals_from-depth ((s, n) ∷ rest) t h =
    let own = shard_totals-depth s.lanes 0 0 (omega arith) in
    totals_from-depth rest _ (omega arith) ∙ (omega arith)

sum_shift :
    (f g : ℕ → ℕ) (i n : ℕ)
    → ((j : ℕ) → f (j + 1) ≡ g j)
    → sum (tabulate f (i + 1) n) ≡ sum (tabulate g i n)
unfolding sum tabulate
sum_shift f g i zero same = refl
sum_shift f g i (suc n) same =
    let first = same i in let rest = sum_shift f g (i + 1) n same in omega arith

sum_plus :
    (f g : ℕ → ℕ) (i n : ℕ)
    → sum (tabulate (λ j. f j + g j) i n) ≡ sum (tabulate f i n) + sum (tabulate g i n)
unfolding sum tabulate
sum_plus f g i zero = refl
sum_plus f g i (suc n) = let rest = sum_plus f g (i + 1) n in omega arith

sum_zero : (i n : ℕ) → sum (tabulate (λ j. 0) i n) ≡ 0
unfolding sum tabulate
sum_zero i zero = refl
sum_zero i (suc n) = let rest = sum_zero (i + 1) n in omega arith

-- A sum below a bound has no term that reaches it.
sum_below :
    (f g : ℕ → ℕ) (bound i n : ℕ)
    → ((j : ℕ) → f j < bound → g j ≡ f j)
    → sum (tabulate f i n) < bound
    → sum (tabulate g i n) ≡ sum (tabulate f i n)
unfolding sum tabulate
sum_below f g bound i zero same h = refl
sum_below f g bound i (suc n) same h =
    let first = same i (omega arith) in
    let rest = sum_below f g bound (i + 1) n same (omega arith) in omega arith

abbrev lane_depth_in : List LaneQueue → ℕ → ℕ
lane_depth_in qs lane = elim (get_elem? qs lane) [ none ↦ 0 | some q ↦ depth q ]

next_lane :
    (q : LaneQueue) (qs : List LaneQueue) (j : ℕ)
    → lane_depth_in (q ∷ qs) (j + 1) ≡ lane_depth_in qs j
next_lane q qs j = let next : j + 1 ≡ suc j = omega arith in ap (lane_depth_in (q ∷ qs)) next

depths_by_lane :
    (qs : List LaneQueue) → sum (tabulate (lane_depth_in qs) 0 (length qs)) ≡ total_depths qs
unfolding sum tabulate total_depths
depths_by_lane [] = refl
depths_by_lane (q ∷ qs) =
    ap (λ x. depth q + x)
      (sum_shift (lane_depth_in (q ∷ qs)) (lane_depth_in qs) 0 (length qs) (next_lane q qs)
        ∙ depths_by_lane qs)

-- A shard with a queue for each of `n` lanes.
abbrev pub HasLanes : ℕ → Shard × ℕ → Type 0
HasLanes n p = length p.0.lanes ≡ n

sum-lane_depths :
    (shards : List (Shard × ℕ)) (n : ℕ)
    → All (HasLanes n) shards
    → sum (tabulate (lane_depths shards) 0 n) ≡ all_depths shards
unfolding lane_depths all_depths total_depth lane_depth
sum-lane_depths [] n h = sum_zero 0 n
sum-lane_depths ((s, k) ∷ rest) n (h, hs) =
    sum_plus (lane_depth_in s.lanes) (lane_depths rest) 0 n
    ∙ ap (λ x. x + sum (tabulate (lane_depths rest) 0 n))
        (ap (λ m. sum (tabulate (lane_depth_in s.lanes) 0 m)) (sym h) ∙ depths_by_lane s.lanes)
    ∙ ap (λ x. total_depths s.lanes + x) (sum-lane_depths rest n hs)

small_lane :
    (shards : List (Shard × ℕ)) (lane : ℕ)
    → lane_depths shards lane < 2 ^ 32
    → lane_queue_depth shards lane ≡ lane_depths shards lane
unfolding lane_queue_depth
small_lane shards lane h = ground arith

-- Where every shard has a queue for each of the `n` lanes, and fewer than 2^32 jobs are queued, the
-- depth of the pressure is the sum of the depths of the lanes.
pub collect_pressure_totals-depth :
    (shards : List (Shard × ℕ)) (n : ℕ)
    → All (HasLanes n) shards
    → all_depths shards < 2 ^ 32
    → (collect_pressure_totals shards).depth_sum ≡ sum (tabulate (lane_queue_depth shards) 0 n)
unfolding collect_pressure_totals
collect_pressure_totals-depth shards n h bound =
    let lanes = sum-lane_depths shards n h in
    let small =
      sum_below (lane_depths shards) (lane_queue_depth shards) (2 ^ 32) 0 n (small_lane shards)
        (omega arith) in
    let from_zero : 0 + all_depths shards ≡ all_depths shards = omega arith in
    totals_from-depth shards (record { depth_sum = 0; capacity_sum = 0; in_flight_sum = 0 })
      (omega arith)
    ∙ from_zero
    ∙ sym (small ∙ lanes)
