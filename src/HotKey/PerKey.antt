-- ===== src/HotKey/PerKey.antt =====
-- The decisions of internal/core/per_key_policy.go on one key. Limits, durations and counts are from 0
-- on: what the source tests with `> 0` is not set at 0.
use go_keylane.Base.{ℕ, Bool, true, false, not, ◌&&◌, leb, ltb, ◌==◌, if◌then◌else◌}
use go_keylane.Base.Floats.{Float}
use go_keylane.HotKey.Defs.{
  MitigationAction, AdmissionReason, allow, throttle, reject, hot_key_candidate, dominant_hot_key,
  max_queued_per_key, max_inflight_per_key, cooldown_active, shard_overloaded, HotKeyEntry,
}

pub data HotKeyStatus : Type 0 where
  cold candidate dominant : HotKeyStatus

-- HotKeyDepthRatio and HotKeyWaitRatio of the tracker's configuration.
pub record HotKeyRatios {ℓ} (W : Type ℓ) : Type ℓ where
  pub depth_ratio : W
  pub wait_ratio : W

pub record PerKeyAdmissionConfig {ℓ} (W : Type ℓ) : Type ℓ where
  pub enabled : Bool
  pub min_status : HotKeyStatus
  pub default_action : MitigationAction
  pub max_queued_per_key : ℕ
  pub max_inflight_per_key : ℕ
  pub pressure_ratio_threshold : W
  pub reject_ratio_threshold : W
  pub cooldown : ℕ
  pub recovery_window : ℕ

-- What is known of the shard at the time.
pub record ShardLoad {ℓ} (W : Type ℓ) : Type ℓ where
  pub depth : ℕ
  pub wait_nanos : ℕ
  pub pressure : W

unfoldable pub hot_key_status_rank : HotKeyStatus → ℕ
hot_key_status_rank cold = 0
hot_key_status_rank candidate = 1
hot_key_status_rank dominant = 2

unfoldable pub status_meets_min : HotKeyStatus → HotKeyStatus → Bool
unfolding hot_key_status_rank
status_meets_min s least = leb (hot_key_status_rank least) (hot_key_status_rank s)

abbrev is_passing : MitigationAction → Bool
is_passing MitigationAction.unset = true
is_passing allow = true
is_passing _ = false

-- `if action == Allow || action == Throttle { action = Reject }`, and `if action == Allow { ... }`.
abbrev at_least_reject : MitigationAction → MitigationAction
at_least_reject allow = reject
at_least_reject throttle = reject
at_least_reject a = a

abbrev at_least_throttle : MitigationAction → MitigationAction
at_least_throttle allow = throttle
at_least_throttle a = a

abbrev hot_reason : HotKeyStatus → AdmissionReason
hot_reason dominant = dominant_hot_key
hot_reason _ = hot_key_candidate

abbrev is_cold : HotKeyStatus → Bool
is_cold cold = true
is_cold _ = false

-- How the checks end: the key has recovered, is let through, or is held back.
pub data Verdict : Type 0 where
  recovered passed : Verdict
  mitigated : MitigationAction → AdmissionReason → Verdict

module _ {ℓ} {W : Type ℓ} ⦃f : Float W⦄ where
  open f use {ratio, lt, le}

  abbrev larger : W → W → W
  larger a b = if lt a b then b else a

  -- `n / d` where both are above zero, and 0 otherwise.
  abbrev share : ℕ → ℕ → W
  share n d = if ltb 0 d && ltb 0 n then ratio n d else ratio 0 1

  unfoldable pub entry_hot_key_status :
      HotKeyEntry → HotKeyRatios W → ShardLoad W → ℕ × ℕ → HotKeyStatus × W
  entry_hot_key_status e limits load (total_submitted, total_queued) =
      let depth_denom : ℕ =
        if ltb load.depth 1 && ltb 0 total_queued then total_queued else load.depth in
      let submit_denom : ℕ = if ltb total_submitted 1 then 1 else total_submitted in
      let by_depth : W = share e.queued_approx depth_denom in
      let by_wait : W = share e.queue_wait_approx_nanos load.wait_nanos in
      let by_submit : W = share e.submitted_approx submit_denom in
      let use_ratio : W = larger (larger by_depth by_submit) by_wait in
      if e.key_hash == 0
      then (cold, ratio 0 1)
      else if not (le limits.depth_ratio by_depth)
          && not (le limits.depth_ratio by_submit)
          && not (le limits.wait_ratio by_wait)
      then (cold, ratio 0 1)
      else if le (ratio 7 10) use_ratio
      then (dominant, use_ratio)
      else (candidate, use_ratio)

  -- The checks of evaluatePerKeyAdmissionInner on an entry, in their order.
  unfoldable pub per_key_verdict :
      PerKeyAdmissionConfig W → HotKeyEntry → HotKeyStatus → W → W → ℕ → Verdict
  unfolding status_meets_min
  per_key_verdict cfg e status pressure_ratio shard_pressure now =
      if ltb 0 e.recovery_until && leb e.recovery_until now && is_cold status
      then recovered
      else if ltb 0 cfg.max_queued_per_key && leb cfg.max_queued_per_key e.queued_approx
      then mitigated throttle max_queued_per_key
      else if ltb 0 cfg.max_inflight_per_key && leb cfg.max_inflight_per_key e.inflight_approx
      then mitigated throttle max_inflight_per_key
      else if ltb 0 e.submitted_approx
          && lt (ratio 0 1) cfg.reject_ratio_threshold
          && le cfg.reject_ratio_threshold (ratio e.rejected_approx e.submitted_approx)
      then mitigated (at_least_reject cfg.default_action) (hot_reason status)
      else if ltb now e.cooldown_until && not (is_passing e.last_action)
      then mitigated e.last_action cooldown_active
      else if le (ratio 95 100) shard_pressure && status_meets_min status cfg.min_status
      then mitigated cfg.default_action shard_overloaded
      else if not (status_meets_min status cfg.min_status)
      then passed
      else if lt (ratio 0 1) cfg.pressure_ratio_threshold
          && lt pressure_ratio cfg.pressure_ratio_threshold
      then passed
      else mitigated (at_least_throttle cfg.default_action) (hot_reason status)
