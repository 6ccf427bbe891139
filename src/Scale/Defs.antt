-- ===== src/Scale/Defs.antt =====
-- The counters, the signal and the calculator of internal/core/scale_signal.go.
use go_keylane.Base.{ℕ, Bool}
use go_keylane.Base.Ints.{ℤ}
use go_keylane.Scale.Triggers.{ScaleReason, ScaleScope, AutoscalingSignalConfig, ScaleSignalInput}

pub record AdmissionCounterSample : Type 0 where
  pub submitted : ℕ
  pub rejected : ℕ
  pub shed : ℕ
  pub throttled : ℕ

pub record ScaleSignal {ℓ} (W : Type ℓ) : Type ℓ where
  pub diagnostics_enabled : Bool
  pub recommended : Bool
  pub pressure_ratio : W
  pub reason : ScaleReason
  pub scope : ScaleScope
  pub queue_depth_ratio : W
  pub queue_wait_max : ℤ
  pub admission_rejected_rate : W
  pub admission_shed_rate : W
  pub admission_throttled_rate : W
  pub worker_busy_ratio : W
  pub hot_shard_count : ℤ
  pub hot_shard_ratio : W
  pub hot_key_candidate_count : ℤ
  pub localized_hot_key_ratio : W
  pub localized_hot_key : Bool
  pub window_started_at : ℕ
  pub window_ended_at : ℕ

-- Without its mutex.
pub record ScaleSignalCalculator {ℓ} (W : Type ℓ) : Type ℓ where
  pub cfg : AutoscalingSignalConfig W
  pub unhealthy_windows : ℤ
  pub last_sample_at : ℕ
  pub last_counters : AdmissionCounterSample

-- What ScaleSignalSnapshot has read when it takes the lock again: the input, whose three rates are
-- not set yet, the counters, and the time that it began at.
pub record Sample {ℓ} (W : Type ℓ) : Type ℓ where
  pub input : ScaleSignalInput W
  pub counters : AdmissionCounterSample
  pub now : ℕ

abbrev pub no_counters : AdmissionCounterSample
no_counters = record { submitted = 0; rejected = 0; shed = 0; throttled = 0 }
