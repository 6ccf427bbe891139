-- ===== src/Retry/Policy.antt =====
-- RetryPolicy of retry_policy.go: its defaults, its validation, and the delay before an attempt.
use go_keylane.Base.{
  ℕ, ◌-◌, ◌*◌, Bool, false, not, ◌&&◌, ◌||◌, List, [], Result, ok, ◌>>◌, require, ltb,
  if◌then◌else◌,
}
use go_keylane.Base.Ints.{ℤ, pos, int_ltb, int_leb}
use go_keylane.Base.Floats.{Float}
use go_keylane.Failure.Defs.{FailureKind}

-- The messages that ValidateRetryPolicy wraps around ErrInvalidRetryPolicy.
pub data PolicyError : Type 0 where
  max_attempts_low initial_backoff_negative max_backoff_low multiplier_low : PolicyError
  jitter_fraction_range min_remaining_negative : PolicyError

pub record RetryPolicy {ℓ} (W : Type ℓ) : Type ℓ where
  pub enabled : Bool
  pub max_attempts : ℤ
  pub initial_backoff : ℤ
  pub max_backoff : ℤ
  pub multiplier : W
  pub jitter : Bool
  pub jitter_fraction : W
  pub min_remaining_budget : ℤ
  pub retryable_kinds : List FailureKind

abbrev pub millisecond : ℕ
millisecond = 1_000_000

-- `if x <= 0 { x = fallback }`
abbrev pub or_default : ℤ → ℤ → ℤ
or_default x fallback = if int_leb x (pos 0) then fallback else x

-- `if delay < 0 { return 0 }`
abbrev pub not_negative : ℤ → ℤ
not_negative d = if int_ltb d (pos 0) then pos 0 else d

module _ {ℓ} {W : Type ℓ} ⦃f : Float W⦄ where
  open f use {ratio, lt, le, plus, minus, times, pow, of_int, to_int}

  abbrev pub float_or_default : W → W → W
  float_or_default x fallback = if le x (ratio 0 1) then fallback else x

  -- The assignments of an enabled policy, in their order.
  unfoldable pub with_defaults : RetryPolicy W → RetryPolicy W
  with_defaults cfg =
      let initial : ℤ = or_default cfg.initial_backoff (pos (10 * millisecond)) in
      let silent : Bool = le cfg.jitter_fraction (ratio 0 1) in
      record {
        enabled = cfg.enabled;
        max_attempts = or_default cfg.max_attempts (pos 3);
        initial_backoff = initial;
        max_backoff = or_default cfg.max_backoff (pos (250 * millisecond));
        multiplier = float_or_default cfg.multiplier (ratio 2 1);
        jitter = silent || cfg.jitter;
        jitter_fraction = float_or_default cfg.jitter_fraction (ratio 2 10);
        min_remaining_budget = or_default cfg.min_remaining_budget initial;
        retryable_kinds = cfg.retryable_kinds;
      }

  unfoldable pub normalize_retry_policy : RetryPolicy W → RetryPolicy W
  unfolding with_defaults
  normalize_retry_policy cfg = if cfg.enabled then with_defaults cfg else cfg

  -- The checks of an enabled policy.
  unfoldable pub check_retry_policy : RetryPolicy W → Result PolicyError (Unit {0})
  check_retry_policy cfg = do
    require (not (int_ltb cfg.max_attempts (pos 1))) max_attempts_low
    require (not (int_ltb cfg.initial_backoff (pos 0))) initial_backoff_negative
    require (not (int_ltb (pos 0) cfg.max_backoff && int_ltb cfg.max_backoff cfg.initial_backoff))
        max_backoff_low
    require (not (lt (ratio 0 1) cfg.multiplier && lt cfg.multiplier (ratio 1 1))) multiplier_low
    require (not (lt cfg.jitter_fraction (ratio 0 1) || lt (ratio 1 1) cfg.jitter_fraction))
        jitter_fraction_range
    require (not (int_ltb cfg.min_remaining_budget (pos 0))) min_remaining_negative

  unfoldable pub validate_retry_policy : RetryPolicy W → Result PolicyError (Unit {0})
  unfolding check_retry_policy
  validate_retry_policy cfg = if cfg.enabled then check_retry_policy cfg else ok tt

  -- RetryPolicy{}
  abbrev pub zero_policy : RetryPolicy W
  zero_policy = record {
    enabled = false;
    max_attempts = pos 0;
    initial_backoff = pos 0;
    max_backoff = pos 0;
    multiplier = ratio 0 1;
    jitter = false;
    jitter_fraction = ratio 0 1;
    min_remaining_budget = pos 0;
    retryable_kinds = [];
  }

  unfoldable pub resolve_retry_policy : RetryPolicy W → RetryPolicy W → RetryPolicy W
  unfolding normalize_retry_policy
  resolve_retry_policy queue override =
      if override.enabled
      then normalize_retry_policy override
      else if queue.enabled
      then normalize_retry_policy queue
      else zero_policy

  -- The backoff before the jitter, from the values with their defaults.
  unfoldable pub base_delay : ℤ → ℤ → W → ℕ → ℤ
  base_delay initial max_backoff multiplier attempt =
      let base₀ : W = of_int initial in
      let base : W =
        if lt (ratio 0 1) multiplier && ltb 1 attempt
        then times base₀ (pow multiplier (attempt - 1))
        else base₀ in
      to_int (
        if int_ltb (pos 0) max_backoff && int_ltb max_backoff (to_int base)
        then of_int max_backoff
        else base)

  -- `sample` is what the jitter source's Float64 gives.
  unfoldable pub retry_delay : RetryPolicy W → ℕ → W → ℤ
  unfolding base_delay
  retry_delay policy attempt₀ sample =
      let attempt : ℕ = if ltb attempt₀ 1 then 1 else attempt₀ in
      let delay : ℤ =
        base_delay (or_default policy.initial_backoff (pos (10 * millisecond)))
          (or_default policy.max_backoff (pos (250 * millisecond)))
          (float_or_default policy.multiplier (ratio 2 1)) attempt in
      if not policy.jitter || le policy.jitter_fraction (ratio 0 1)
      then not_negative delay
      else let spread : W = times (of_int delay) policy.jitter_fraction in
        let offset : W = times (minus (times sample (ratio 2 1)) (ratio 1 1)) spread in
        not_negative (to_int (plus (of_int delay) offset))
