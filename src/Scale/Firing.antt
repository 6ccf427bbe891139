-- ===== src/Scale/Firing.antt =====
-- When evaluateScaleTriggers of internal/core/scale_signal.go finds a scheduler unhealthy.
use go_keylane.Base.{
  ℕ, Bool, true, false, ◌&&◌, ◌||◌, List, [], ◌∷◌, ◌≡◌, refl, ◌∙◌, ap, arith, if◌then◌else◌, not,
}
use go_keylane.Base.Ints.{pos, int_ltb, int_leb}
use go_keylane.Base.Floats.{Float}
use go_keylane.Scale.Triggers.{
  ScaleReason, no_reason, ScaleScope, no_scope, ScaleSignalInput, AutoscalingSignalConfig, Trigger,
  Best, append_if, triggers, no_best, consider, best_trigger, evaluate_scale_triggers,
  is_distributed, is_worker_bound, ShardPressureClass, healthy, localized_key, lane_dominant,
  shard_hot, distributed, worker_bound, unknown_class,
}

unfoldable any_fired : List Trigger → Bool
any_fired [] = false
any_fired (t ∷ ts) = t.fired || any_fired ts

none_fired : any_fired [] ≡ false
unfolding any_fired
none_fired = refl

abbrev any : List Bool → Bool
any [] = false
any (b ∷ bs) = b || any bs

abbrev verdict : Best → ScaleReason × ScaleScope × Bool
verdict best =
    if not best.unhealthy then (no_reason, no_scope, false) else (best.reason, best.scope, true)

verdict-unhealthy : (best : Best) → (verdict best).2 ≡ best.unhealthy
verdict-unhealthy best = ground arith

or_assoc : (a b c : Bool) → ((a || b) || c) ≡ (b || (a || c))
or_assoc true true c = refl
or_assoc true false c = refl
or_assoc false true c = refl
or_assoc false false c = refl

append_if-any :
    (c : Bool) (r : ScaleReason) (p : ℕ) (ts : List Trigger)
    → any_fired (append_if c r p ts) ≡ (c || any_fired ts)
unfolding any_fired append_if
append_if-any true r p ts = refl
append_if-any false r p ts = refl

-- The classes by name.
abbrev at_workers : ShardPressureClass → Bool
at_workers worker_bound = true
at_workers _ = false

abbrev everywhere : ShardPressureClass → Bool
everywhere distributed = true
everywhere _ = false

is_worker_bound_lem : (c : ShardPressureClass) → is_worker_bound c ≡ at_workers c
unfolding is_worker_bound
is_worker_bound_lem healthy = refl
is_worker_bound_lem localized_key = refl
is_worker_bound_lem lane_dominant = refl
is_worker_bound_lem shard_hot = refl
is_worker_bound_lem distributed = refl
is_worker_bound_lem worker_bound = refl
is_worker_bound_lem unknown_class = refl

is_distributed_lem : (c : ShardPressureClass) → is_distributed c ≡ everywhere c
unfolding is_distributed
is_distributed_lem healthy = refl
is_distributed_lem localized_key = refl
is_distributed_lem lane_dominant = refl
is_distributed_lem shard_hot = refl
is_distributed_lem distributed = refl
is_distributed_lem worker_bound = refl
is_distributed_lem unknown_class = refl

module _ {ℓ} {W : Type ℓ} ⦃f : Float W⦄ where
  open f use {le}

  consider-unhealthy :
      (inp : ScaleSignalInput W) (t : Trigger) (best : Best)
      → (consider inp t best).unhealthy ≡ (t.fired || best.unhealthy)
  unfolding consider
  consider-unhealthy inp t best = ground arith

  best_trigger-unhealthy :
      (inp : ScaleSignalInput W) (ts : List Trigger) (best : Best)
      → (best_trigger inp ts best).unhealthy ≡ (best.unhealthy || any_fired ts)
  unfolding best_trigger any_fired
  best_trigger-unhealthy inp [] best = ground arith
  best_trigger-unhealthy inp (t ∷ ts) best =
      best_trigger-unhealthy inp ts (consider inp t best)
      ∙ ap (λ b. b || any_fired ts) (consider-unhealthy inp t best)
      ∙ or_assoc t.fired best.unhealthy (any_fired ts)

  -- Some signal has come to its threshold, or the pressure is distributed or of the workers.
  unfoldable pub is_unhealthy : ScaleSignalInput W → AutoscalingSignalConfig W → W → Bool
  is_unhealthy inp cfg depth_ratio = any (
      le cfg.admission_shed_rate_threshold inp.admission_shed_rate
      ∷ le cfg.admission_reject_rate_threshold inp.admission_rejected_rate
      ∷ (everywhere inp.shard_pressure_class || at_workers inp.shard_pressure_class)
      ∷ (int_leb cfg.many_hot_shards_threshold inp.hot_shard_count
          || le cfg.hot_shard_ratio_threshold inp.hot_shard_ratio)
      ∷ (le cfg.worker_busy_ratio_threshold inp.worker_busy_ratio
          || at_workers inp.shard_pressure_class)
      ∷ (int_ltb (pos 0) cfg.queue_wait_max_threshold
          && int_leb cfg.queue_wait_max_threshold inp.queue_wait_max)
      ∷ le cfg.queue_depth_ratio_threshold depth_ratio
      ∷ [])

  triggers-any :
      (inp : ScaleSignalInput W) (cfg : AutoscalingSignalConfig W) (depth_ratio : W)
      → any_fired (triggers inp cfg depth_ratio) ≡ is_unhealthy inp cfg depth_ratio
  unfolding triggers is_unhealthy
  triggers-any inp cfg depth_ratio = simp (
    append_if-any,
    none_fired,
    is_distributed_lem inp.shard_pressure_class,
    is_worker_bound_lem inp.shard_pressure_class,
  )

  pub evaluate_scale_triggers-unhealthy :
      (inp : ScaleSignalInput W) (cfg : AutoscalingSignalConfig W) (depth_ratio : W)
      → (evaluate_scale_triggers inp cfg depth_ratio).2 ≡ is_unhealthy inp cfg depth_ratio
  unfolding evaluate_scale_triggers
  evaluate_scale_triggers-unhealthy inp cfg depth_ratio =
      verdict-unhealthy (best_trigger inp (triggers inp cfg depth_ratio) no_best)
      ∙ best_trigger-unhealthy inp (triggers inp cfg depth_ratio) no_best
      ∙ triggers-any inp cfg depth_ratio
