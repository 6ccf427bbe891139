-- ===== src/Scale/Signal.antt =====
-- The calculator of internal/core/scale_signal.go, which counts the unhealthy windows in a row.
use go_keylane.Base.{
  ℕ, Bool, true, false, not, ◌&&◌, ◌||◌, Option, none, some, ltb, ◌==◌, if◌then◌else◌,
}
use go_keylane.Base.Ints.{pos, int_leb, minus, ◌+ℤ◌}
use go_keylane.Base.Floats.{Float}
use go_keylane.Scale.Defs.{
  AdmissionCounterSample, ScaleSignal, ScaleSignalCalculator, Sample, no_counters,
}
use go_keylane.Scale.Rates.{
  depth_ratio_of, at_most_one, admission_rates, compute_scale_pressure_ratio,
}
use go_keylane.Scale.Triggers.{
  ScaleReason, no_reason, localized_hot_key, insufficient_data, ScaleScope, no_scope, hot_key,
  unknown, AutoscalingSignalConfig, ScaleSignalInput, normalize_autoscaling_signal_config,
  evaluate_scale_triggers,
}

module _ {ℓ} {W : Type ℓ} ⦃f : Float W⦄ where
  open f use {ratio, lt, le}

  abbrev pub is_localized : ScaleSignalInput W → AutoscalingSignalConfig W → Bool
  is_localized inp cfg =
      le cfg.localized_hot_key_ratio_threshold inp.localized_hot_key_ratio
      && int_leb inp.hot_shard_count (pos 2)

  -- `if advanceWindow { ... }`, which both paths of calculate run.
  unfoldable pub advance_window :
      ScaleSignalCalculator W → Bool → AdmissionCounterSample → ℕ → ScaleSignalCalculator W
  advance_window c unhealthy counters now =
      if c.last_sample_at == 0 || int_leb c.cfg.window (minus now c.last_sample_at)
      then record {
        cfg = c.cfg;
        unhealthy_windows = if unhealthy then c.unhealthy_windows +ℤ pos 1 else pos 0;
        last_sample_at = now;
        last_counters = counters;
      }
      else c

  unfoldable pub first_signal : ScaleSignalCalculator W → ScaleSignalInput W → ℕ → ScaleSignal W
  unfolding depth_ratio_of
  first_signal c inp now = record {
    diagnostics_enabled = true;
    recommended = false;
    pressure_ratio = ratio 0 1;
    reason = no_reason;
    scope = no_scope;
    queue_depth_ratio = depth_ratio_of inp;
    queue_wait_max = inp.queue_wait_max;
    admission_rejected_rate = inp.admission_rejected_rate;
    admission_shed_rate = inp.admission_shed_rate;
    admission_throttled_rate = inp.admission_throttled_rate;
    worker_busy_ratio = inp.worker_busy_ratio;
    hot_shard_count = inp.hot_shard_count;
    hot_shard_ratio = inp.hot_shard_ratio;
    hot_key_candidate_count = inp.hot_key_candidate_count;
    localized_hot_key_ratio = inp.localized_hot_key_ratio;
    localized_hot_key = is_localized inp c.cfg;
    window_started_at = if c.last_sample_at == 0 then now else c.last_sample_at;
    window_ended_at = now;
  }

  unfoldable pub calculate :
      ScaleSignalCalculator W
      → ScaleSignalInput W
      → AdmissionCounterSample
      → ℕ
      → ScaleSignal W × ScaleSignalCalculator W
  unfolding depth_ratio_of first_signal advance_window evaluate_scale_triggers
      compute_scale_pressure_ratio
  calculate c inp counters now =
      let sig : ScaleSignal W = first_signal c inp now in
      let depth_ratio : W = depth_ratio_of inp in
      let pressure : W = compute_scale_pressure_ratio inp c.cfg depth_ratio in
      let verdict : ScaleReason × ScaleScope × Bool =
        evaluate_scale_triggers inp c.cfg depth_ratio in
      let next : ScaleSignalCalculator W = advance_window c verdict.2 counters now in
      if int_leb inp.queue_capacity_total (pos 0) || counters.submitted == 0
      then (
        record sig { reason = insufficient_data; scope = unknown; pressure_ratio = depth_ratio },
        c,
      )
      else if is_localized inp c.cfg
      then (
        record sig {
          pressure_ratio = pressure;
          reason = localized_hot_key;
          scope = hot_key;
          recommended = false;
          localized_hot_key = true;
        },
        next,
      )
      else (
        record sig {
          pressure_ratio = pressure;
          reason = verdict.0;
          scope = verdict.1;
          recommended = verdict.2 && int_leb next.cfg.consecutive_windows next.unhealthy_windows;
        },
        next,
      )

  -- The input with the rates since the last sample, or since the start before the first one.
  unfoldable pub with_rates : ScaleSignalCalculator W → Sample W → ScaleSignalInput W
  unfolding admission_rates
  with_rates c s =
      let now : AdmissionCounterSample = s.counters in
      let rates : W × W × W =
        if c.last_sample_at == 0 && ltb 0 now.submitted
        then (
          at_most_one (ratio now.rejected now.submitted),
          at_most_one (ratio now.shed now.submitted),
          at_most_one (ratio now.throttled now.submitted),
        )
        else admission_rates now c.last_counters in
      record s.input {
        admission_rejected_rate = rates.0;
        admission_shed_rate = rates.1;
        admission_throttled_rate = rates.2;
      }

  -- ScaleSignalSnapshot from where it takes the lock again.
  unfoldable pub locked_signal :
      ScaleSignalCalculator W → Sample W → ScaleSignal W × ScaleSignalCalculator W
  unfolding calculate with_rates
  locked_signal c s = calculate c (with_rates c s) s.counters s.now

  -- What is answered without a calculator, and where the configuration is disabled.
  unfoldable pub disabled_signal : ℕ → ScaleSignal W
  disabled_signal now = record {
    diagnostics_enabled = false;
    recommended = false;
    pressure_ratio = ratio 0 1;
    reason = no_reason;
    scope = no_scope;
    queue_depth_ratio = ratio 0 1;
    queue_wait_max = pos 0;
    admission_rejected_rate = ratio 0 1;
    admission_shed_rate = ratio 0 1;
    admission_throttled_rate = ratio 0 1;
    worker_busy_ratio = ratio 0 1;
    hot_shard_count = pos 0;
    hot_shard_ratio = ratio 0 1;
    hot_key_candidate_count = pos 0;
    localized_hot_key_ratio = ratio 0 1;
    localized_hot_key = false;
    window_started_at = 0;
    window_ended_at = now;
  }

  -- The whole call, where the calculator is not configured anew while the input is gathered.
  unfoldable pub scale_signal_snapshot :
      Option (ScaleSignalCalculator W) → Sample W → ScaleSignal W × Option (ScaleSignalCalculator W)
  scale_signal_snapshot none s = (disabled_signal s.now, none)
  scale_signal_snapshot (some c) s =
      let r : ScaleSignal W × ScaleSignalCalculator W = locked_signal c s in
      if not c.cfg.enabled then (disabled_signal s.now, some c) else (r.0, some r.1)

  unfoldable pub configure_autoscaling_signal :
      Option (ScaleSignalCalculator W) → AutoscalingSignalConfig W → ScaleSignalCalculator W
  unfolding normalize_autoscaling_signal_config
  configure_autoscaling_signal none cfg = record {
    cfg = normalize_autoscaling_signal_config cfg;
    unhealthy_windows = pos 0;
    last_sample_at = 0;
    last_counters = no_counters;
  }
  configure_autoscaling_signal (some c) cfg = record c {
    cfg = normalize_autoscaling_signal_config cfg;
    unhealthy_windows = pos 0;
    last_sample_at = 0;
    last_counters = no_counters;
  }
