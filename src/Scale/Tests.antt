-- ===== src/Scale/Tests.antt =====
-- A calculator that sees its queue full in two windows of ten seconds.
use go_keylane.Base.{ℕ, ◌≡◌, refl, true, false, Option, none, some, List, [], ◌∷◌, arith}
use go_keylane.Base.Ints.{pos}
use go_keylane.Base.Floats.{Fraction, fraction_float}
use go_keylane.Scale.Triggers.{
  healthy, AutoscalingSignalConfig, normalize_autoscaling_signal_config,
}
use go_keylane.Scale.Defs.{ScaleSignalCalculator, Sample}
use go_keylane.Scale.Signal.{
  locked_signal, disabled_signal, scale_signal_snapshot, configure_autoscaling_signal,
}
use go_keylane.Scale.Log.{log_samples, recommends}
use go_keylane.Scale.Recommending.{run_samples, scale_signal_snapshot-recommends}

abbrev config : AutoscalingSignalConfig Fraction
config = record {
  enabled = true;
  window = pos 10_000_000_000;
  consecutive_windows = pos 0;
  queue_depth_ratio_threshold = (0, 1);
  queue_wait_max_threshold = pos 0;
  admission_reject_rate_threshold = (0, 1);
  admission_shed_rate_threshold = (0, 1);
  worker_busy_ratio_threshold = (0, 1);
  hot_shard_ratio_threshold = (0, 1);
  many_hot_shards_threshold = pos 0;
  localized_hot_key_ratio_threshold = (0, 1);
}

-- `n` jobs in a queue for 100.
abbrev sample : ℕ → ℕ → Sample Fraction
sample n now = record {
  input = record {
    queue_depth_total = pos n;
    queue_capacity_total = pos 100;
    queue_wait_max = pos 0;
    admission_rejected_rate = (0, 1);
    admission_shed_rate = (0, 1);
    admission_throttled_rate = (0, 1);
    worker_busy_ratio = (0, 1);
    hot_shard_count = pos 0;
    total_shard_count = pos 4;
    hot_shard_ratio = (0, 1);
    hot_key_candidate_count = pos 0;
    localized_hot_key_ratio = (0, 1);
    shard_pressure_class = healthy;
  };
  counters = record { submitted = 500; rejected = 0; shed = 0; throttled = 0 };
  now = now;
}

abbrev before : List (Sample Fraction)
before = sample 20 5_000_000_000 ∷ sample 90 16_000_000_000 ∷ []

abbrev calculator : Option (ScaleSignalCalculator Fraction)
unfolding configure_autoscaling_signal scale_signal_snapshot locked_signal run_samples
calculator = run_samples (some (configure_autoscaling_signal none config)) before

recommended_after_two :
    (scale_signal_snapshot calculator (sample 95 26_000_000_000)).0.recommended ≡ true
unfolding scale_signal_snapshot locked_signal calculator
recommended_after_two = refl

not_within_one : (scale_signal_snapshot calculator (sample 95 25_000_000_000)).0.recommended ≡ false
unfolding scale_signal_snapshot locked_signal calculator
not_within_one = refl

-- Switched off.
never_disabled :
    (scale_signal_snapshot
      (run_samples
        (some (configure_autoscaling_signal none (record config { enabled = false })))
        before)
      (sample 95 26_000_000_000)).0.recommended
    ≡ false
unfolding scale_signal_snapshot disabled_signal run_samples configure_autoscaling_signal
never_disabled = refl

scale_signal_snapshot-recommends_example :
    (scale_signal_snapshot
      (run_samples (some (configure_autoscaling_signal none config)) before)
      (sample 95 26_000_000_000)).0.recommended
    ≡ recommends
        (normalize_autoscaling_signal_config config)
        (log_samples (normalize_autoscaling_signal_config config) [] before)
        (sample 95 26_000_000_000)
scale_signal_snapshot-recommends_example =
    scale_signal_snapshot-recommends none config before (sample 95 26_000_000_000)
      (omega arith, (omega arith, tt)) (omega arith)
