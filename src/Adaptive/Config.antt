-- ===== src/Adaptive/Config.antt =====
-- adaptive_quota.go: the defaults of the configuration, its validation, and its way to the core.
use go_keylane.Base.{
  ℕ, Bool, true, false, not, ◌&&◌, ◌||◌, String, List, [], ◌∷◌, Result, ok, ◌>>◌, require,
  if◌then◌else◌,
}
use text.Mathlib.Text.{◌==◌ as str_eq}
use go_keylane.Base.Ints.{ℤ, pos, int_ltb, int_leb, to_nat}
use go_keylane.Base.Floats.{Float}
use go_keylane.Errors.{Error, invalid_lane, invalid_lane_class, invalid_adaptive_quota_config}
use go_keylane.Registry.{find}
use go_keylane.Quota.{is_some}
use go_keylane.Admission.Defs.{is_lane_class}
use go_keylane.Adaptive.Defs.{AdaptiveQuotaConfig}
use go_keylane.Adaptive.Resolve.{LaneAdaptivePolicy, is_set}

-- AdaptiveQuotaConfig of the public package, whose numbers may be below zero.
pub record ClientConfig {ℓ} (W : Type ℓ) : Type ℓ where
  pub enabled : Bool
  pub evaluation_interval : ℤ
  pub warmup_duration : ℤ
  pub cooldown_duration : ℤ
  pub pressure_high : W
  pub pressure_low : W
  pub queue_wait_high : ℤ
  pub run_time_high : ℤ
  pub increase_step : ℤ
  pub decrease_step : ℤ
  pub max_adjustments_per_tick : ℤ
  pub enable_increase : Bool
  pub enable_decrease : Bool

pub record AdaptiveQuotaPolicy {ℓ} (W : Type ℓ) : Type ℓ where
  pub config : ClientConfig W
  pub lanes : List LaneAdaptivePolicy

-- `if x <= 0 { x = def }`
abbrev pub or_positive : ℤ → ℤ → ℤ
or_positive x def = if int_leb x (pos 0) then def else x

-- The map that the source calls `seen`, as the lanes before the one that is looked at.
unfoldable pub seen_policy : String → List LaneAdaptivePolicy → Bool
seen_policy lane [] = false
seen_policy lane (lp ∷ rest) = str_eq lp.lane lane || seen_policy lane rest

-- The loop over `policy.Lanes`. `quotas` is the map of the configured lanes.
unfoldable pub check_lane_adaptive_policies :
    List (String × ℕ) → List LaneAdaptivePolicy → List LaneAdaptivePolicy → Result Error (Unit {0})
unfolding seen_policy
check_lane_adaptive_policies quotas seen [] = ok tt
check_lane_adaptive_policies quotas seen (lp ∷ rest) = do
  require (not (str_eq lp.lane "")) invalid_lane
  require (is_some (find lp.lane quotas)) invalid_adaptive_quota_config
  require (not (seen_policy lp.lane seen)) invalid_adaptive_quota_config
  require (not (is_set lp.class) || is_lane_class lp.class) invalid_lane_class
  require (not (int_ltb lp.min_quota (pos 1))) invalid_adaptive_quota_config
  require (not (int_ltb lp.max_quota lp.min_quota)) invalid_adaptive_quota_config
  require (not (int_ltb (pos 1024) lp.max_quota)) invalid_adaptive_quota_config
  check_lane_adaptive_policies quotas (lp ∷ seen) rest

module _ {ℓ} {W : Type ℓ} ⦃f : Float W⦄ where
  open f use {ratio, lt, le}

  unfoldable pub default_adaptive_quota_config : ClientConfig W
  default_adaptive_quota_config = record {
    enabled = false;
    evaluation_interval = pos 1_000_000_000;
    warmup_duration = pos 5_000_000_000;
    cooldown_duration = pos 5_000_000_000;
    pressure_high = ratio 85 100;
    pressure_low = ratio 60 100;
    queue_wait_high = pos 25_000_000;
    run_time_high = pos 250_000_000;
    increase_step = pos 1;
    decrease_step = pos 1;
    max_adjustments_per_tick = pos 1;
    enable_increase = true;
    enable_decrease = true;
  }

  abbrev float_or : W → W → W
  float_or x def = if le x (ratio 0 1) then def else x

  unfoldable pub normalize_adaptive_quota_config : ClientConfig W → ClientConfig W
  unfolding default_adaptive_quota_config
  normalize_adaptive_quota_config cfg =
      let def : ClientConfig W = default_adaptive_quota_config in
      let unset : Bool = not cfg.enable_increase && not cfg.enable_decrease in
      record {
        enabled = cfg.enabled;
        evaluation_interval = or_positive cfg.evaluation_interval def.evaluation_interval;
        warmup_duration = or_positive cfg.warmup_duration def.warmup_duration;
        cooldown_duration = or_positive cfg.cooldown_duration def.cooldown_duration;
        pressure_high = float_or cfg.pressure_high def.pressure_high;
        pressure_low = float_or cfg.pressure_low def.pressure_low;
        queue_wait_high = or_positive cfg.queue_wait_high def.queue_wait_high;
        run_time_high = or_positive cfg.run_time_high def.run_time_high;
        increase_step = or_positive cfg.increase_step def.increase_step;
        decrease_step = or_positive cfg.decrease_step def.decrease_step;
        max_adjustments_per_tick =
            or_positive cfg.max_adjustments_per_tick def.max_adjustments_per_tick;
        enable_increase = if unset then def.enable_increase else cfg.enable_increase;
        enable_decrease = if unset then def.enable_decrease else cfg.enable_decrease;
      }

  -- `x < 0 || x > 1`
  abbrev outside : W → Bool
  outside x = lt x (ratio 0 1) || lt (ratio 1 1) x

  unfoldable pub check_adaptive_quota_config : ClientConfig W → Result Error (Unit {0})
  unfolding normalize_adaptive_quota_config
  check_adaptive_quota_config raw =
      let cfg : ClientConfig W = normalize_adaptive_quota_config raw in
      do
        require (not (int_leb raw.evaluation_interval (pos 0))) invalid_adaptive_quota_config
        require (not (lt raw.pressure_low (ratio 0 1))) invalid_adaptive_quota_config
        require (not (lt raw.pressure_high (ratio 0 1))) invalid_adaptive_quota_config
        require (not (int_ltb raw.increase_step (pos 0))) invalid_adaptive_quota_config
        require (not (int_ltb raw.decrease_step (pos 0))) invalid_adaptive_quota_config
        require (not (int_ltb raw.max_adjustments_per_tick (pos 1))) invalid_adaptive_quota_config
        require (not (outside cfg.pressure_low)) invalid_adaptive_quota_config
        require (not (outside cfg.pressure_high)) invalid_adaptive_quota_config
        require (not (le cfg.pressure_high cfg.pressure_low)) invalid_adaptive_quota_config

  unfoldable pub validate_adaptive_quota_policy :
      AdaptiveQuotaPolicy W → List (String × ℕ) → Result Error (Unit {0})
  unfolding check_adaptive_quota_config check_lane_adaptive_policies
  validate_adaptive_quota_policy policy quotas = if not policy.config.enabled then ok tt else do
    check_adaptive_quota_config policy.config
    check_lane_adaptive_policies quotas [] policy.lanes

  -- The steps of a normalized configuration are above zero.
  unfoldable pub adaptive_quota_config_to_core : ClientConfig W → Bool → AdaptiveQuotaConfig W
  adaptive_quota_config_to_core cfg emit_hold_decisions = record {
    enabled = cfg.enabled;
    evaluation_interval = cfg.evaluation_interval;
    warmup_duration = cfg.warmup_duration;
    cooldown_duration = cfg.cooldown_duration;
    pressure_high = cfg.pressure_high;
    pressure_low = cfg.pressure_low;
    queue_wait_high = cfg.queue_wait_high;
    run_time_high = cfg.run_time_high;
    increase_step = to_nat cfg.increase_step;
    decrease_step = to_nat cfg.decrease_step;
    max_adjustments_per_tick = to_nat cfg.max_adjustments_per_tick;
    enable_increase = cfg.enable_increase;
    enable_decrease = cfg.enable_decrease;
    emit_hold_decisions = emit_hold_decisions;
  }
