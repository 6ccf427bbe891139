-- ===== src/Scale/Rates.antt =====
-- The rates and the pressure ratio of internal/core/scale_signal.go, and the maximum of
-- shard_pressure_classification.go.
use go_keylane.Base.{
  ℕ, ◌+◌, ◌-◌, ◌%◌, ◌^◌, Bool, not, ◌&&◌, List, [], ◌∷◌, ltb, ◌==◌, if◌then◌else◌,
}
use go_keylane.Base.Ints.{ℤ, pos, negsuc, int_ltb}
use go_keylane.Base.Floats.{Float}
use go_keylane.Admission.Pressure.{safe_ratio}
use go_keylane.Scale.Defs.{AdmissionCounterSample}
use go_keylane.Scale.Triggers.{AutoscalingSignalConfig, ScaleSignalInput}

-- `a - b` in 64 bits, and a signed number as a `uint64`.
abbrev counter_delta : ℕ → ℕ → ℕ
counter_delta a b = (a + 2 ^ 64 - b) % 2 ^ 64

abbrev pub as_uint64 : ℤ → ℕ
as_uint64 (pos n) = n
as_uint64 (negsuc n) = 2 ^ 64 - 1 - n

module _ {ℓ} {W : Type ℓ} ⦃f : Float W⦄ where
  open f use {ratio, lt, le}

  -- The quotient of two integers as floats, the second above zero.
  abbrev quotient : ℤ → ℤ → W
  quotient (pos n) (pos d) = ratio n d
  quotient (negsuc n) (pos d) = f.minus (ratio 0 1) (ratio (n + 1) d)
  quotient a (negsuc d) = ratio 0 1

  unfoldable pub depth_ratio_of : ScaleSignalInput W → W
  unfolding safe_ratio
  depth_ratio_of inp =
      safe_ratio (as_uint64 inp.queue_depth_total) (as_uint64 inp.queue_capacity_total)

  abbrev pub at_most_one : W → W
  at_most_one x = if lt (ratio 1 1) x then ratio 1 1 else x

  unfoldable pub admission_rates : AdmissionCounterSample → AdmissionCounterSample → W × W × W
  admission_rates current last =
      let delta : ℕ = counter_delta current.submitted last.submitted in
      let first : Bool = ltb 0 current.submitted && last.submitted == 0 in
      let submitted : ℕ = if delta == 0 then current.submitted else delta in
      if delta == 0 && not first then (ratio 0 1, ratio 0 1, ratio 0 1) else (
        at_most_one (ratio (counter_delta current.rejected last.rejected) submitted),
        at_most_one (ratio (counter_delta current.shed last.shed) submitted),
        at_most_one (ratio (counter_delta current.throttled last.throttled) submitted),
      )

  -- The loop of maxFloat64 after the first value.
  unfoldable pub largest : W → List W → W
  largest m [] = m
  largest m (v ∷ vs) = largest (if lt m v then v else m) vs

  unfoldable pub max_float64 : List W → W
  unfolding largest
  max_float64 [] = ratio 0 1
  max_float64 (v ∷ vs) = largest v vs

  unfoldable pub compute_scale_pressure_ratio :
      ScaleSignalInput W → AutoscalingSignalConfig W → W → W
  unfolding max_float64
  compute_scale_pressure_ratio inp cfg depth_ratio =
      let wait_ratio : W =
        if int_ltb (pos 0) cfg.queue_wait_max_threshold
        then quotient inp.queue_wait_max cfg.queue_wait_max_threshold
        else ratio 0 1 in
      max_float64 (
        depth_ratio ∷ wait_ratio ∷ inp.admission_rejected_rate ∷ inp.admission_shed_rate
        ∷ inp.admission_throttled_rate ∷ inp.worker_busy_ratio ∷ inp.hot_shard_ratio ∷ [])
