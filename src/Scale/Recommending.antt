-- ===== src/Scale/Recommending.antt =====
-- When ScaleSignalSnapshot of internal/core/scale_signal.go recommends to scale out.
use go_keylane.Base.{
  ℕ, suc, ◌+◌, ◌^◌, ◌≤◌, ◌<◌, ◌≡◌, refl, ◌∙◌, ap, arith, Bool, not, ◌||◌, ◌&&◌, true, false, Option,
  none, some, List, [], ◌∷◌, All, length, if◌then◌else◌,
}
use go_keylane.Base.Floats.{Float}
use go_keylane.Scale.Triggers.{AutoscalingSignalConfig, normalize_autoscaling_signal_config}
use go_keylane.Scale.Defs.{ScaleSignal, ScaleSignalCalculator, Sample}
use go_keylane.Scale.Signal.{disabled_signal, scale_signal_snapshot, configure_autoscaling_signal}
use go_keylane.Scale.Log.{Window, unhealthy_run, no_data, log_window, log_samples, recommends}
use go_keylane.Scale.Windows.{calculator_of, IsDated, snapshot-next, snapshot-recommended}

zero_run : unhealthy_run [] ≡ 0
unfolding unhealthy_run
zero_run = refl

abbrev logged : Bool → Bool → Window → List Window → List Window
logged a b w log = if a then log else if b then w ∷ log else log

logged-run :
    (a b : Bool) (w : Window) (log : List Window)
    → unhealthy_run (logged a b w log) ≤ suc (unhealthy_run log)
unfolding unhealthy_run
logged-run true b w log = omega arith
logged-run false true w log = ground arith
logged-run false false w log = omega arith

logged-IsDated :
    (a b : Bool) (w : Window) (log : List Window)
    → IsDated log
    → 1 ≤ w.at
    → IsDated (logged a b w log)
logged-IsDated true b w log d h = d
logged-IsDated false true w log d h = h
logged-IsDated false false w log d h = d

module _ {ℓ} {W : Type ℓ} ⦃f : Float W⦄ where
  unfoldable pub run_samples :
      Option (ScaleSignalCalculator W) → List (Sample W) → Option (ScaleSignalCalculator W)
  unfolding scale_signal_snapshot
  run_samples c [] = c
  run_samples c (s ∷ ss) = run_samples (scale_signal_snapshot c s).1 ss

  abbrev pub IsClocked : List (Sample W) → Type 0
  IsClocked ss = All (λ (s : Sample W). 1 ≤ s.now) ss

  module _ (cfg : AutoscalingSignalConfig W) where
    abbrev Answer : Type ℓ
    Answer = ScaleSignal W × Option (ScaleSignalCalculator W)

    -- The two ways that ScaleSignalSnapshot returns.
    abbrev when : Bool → Answer → Answer → Answer
    when b x y = if not b then y else x

    when-next :
        (b a : Bool) (x y : ScaleSignal W) (n : ScaleSignalCalculator W) (log more : List Window)
        → n ≡ calculator_of cfg (if a then log else more)
        → (when b (x, some n) (y, some (calculator_of cfg log))).1
          ≡ some (calculator_of cfg (if not b || a then log else more))
    when-next true a x y n log more e = ap some e
    when-next false a x y n log more e = refl

    when-recommended :
        (b : Bool) (x y : ScaleSignal W) (n c : Option (ScaleSignalCalculator W)) {j : Bool}
        → x.recommended ≡ j
        → y.recommended ≡ false
        → (when b (x, n) (y, c)).0.recommended ≡ (b && j)
    when-recommended true x y n c e o = e
    when-recommended false x y n c e o = o

    off : (now : ℕ) → (disabled_signal {W = W} now).recommended ≡ false
    unfolding disabled_signal
    off now = refl

    abbrev next_log : List Window → Sample W → List Window
    next_log log s = if not cfg.enabled || no_data s then log else log_window cfg log s

    next_log-run :
        (log : List Window) (s : Sample W)
        → unhealthy_run (next_log log s) ≤ suc (unhealthy_run log)
    unfolding log_window
    next_log-run log s = logged-run (not cfg.enabled || no_data s) _ _ log

    next_log-IsDated :
        (log : List Window) (s : Sample W) → IsDated log → 1 ≤ s.now → IsDated (next_log log s)
    unfolding log_window
    next_log-IsDated log s d h = logged-IsDated (not cfg.enabled || no_data s) _ _ log d h

    answered-next :
        (log : List Window) (s : Sample W)
        → IsDated log
        → suc (unhealthy_run log) < 2 ^ 63
        → (scale_signal_snapshot (some (calculator_of cfg log)) s).1
          ≡ some (calculator_of cfg (next_log log s))
    unfolding scale_signal_snapshot calculator_of
    answered-next log s d h =
        when-next cfg.enabled (no_data s) _ _ _ log (log_window cfg log s)
          (snapshot-next cfg log s d h)

    answered-recommended :
        (log : List Window) (s : Sample W)
        → IsDated log
        → suc (unhealthy_run log) < 2 ^ 63
        → (scale_signal_snapshot (some (calculator_of cfg log)) s).0.recommended
          ≡ recommends cfg log s
    unfolding scale_signal_snapshot calculator_of recommends
    answered-recommended log s d h =
        when-recommended cfg.enabled _ _ _ _ (snapshot-recommended cfg log s d h) (off s.now)

    run_samples-calculator_of :
        (ss : List (Sample W)) (log : List Window)
        → IsDated log
        → IsClocked ss
        → unhealthy_run log + length ss < 2 ^ 63
        → (run_samples (some (calculator_of cfg log)) ss
            ≡ some (calculator_of cfg (log_samples cfg log ss)))
          × IsDated (log_samples cfg log ss)
          × (unhealthy_run (log_samples cfg log ss) ≤ unhealthy_run log + length ss)
    unfolding run_samples log_samples
    run_samples-calculator_of [] log d k h = (refl, d, omega arith)
    run_samples-calculator_of (s ∷ ss) log d k h =
        let one = next_log-run log s in
        let rest =
          run_samples-calculator_of ss (next_log log s) (next_log-IsDated log s d k.0) k.1
            (omega arith) in
        (
          ap (λ c. run_samples c ss) (answered-next log s d (omega arith)) ∙ rest.0,
          rest.1,
          omega (arith, rest.2),
        )

  configure-calculator_of :
      (old : Option (ScaleSignalCalculator W)) (cfg : AutoscalingSignalConfig W)
      → configure_autoscaling_signal old cfg
        ≡ calculator_of (normalize_autoscaling_signal_config cfg) []
  unfolding configure_autoscaling_signal calculator_of
  configure-calculator_of none cfg = refl
  configure-calculator_of (some c) cfg = refl

  -- After a configuration, whatever was there before, and any samples with a clock above zero, fewer
  -- than 2^63 - 1: a signal recommends to scale out just where the signal is enabled, its sample has a
  -- capacity and submitted jobs, no localized hot key in two hot shards or fewer, and a signal at its
  -- threshold, with the rates since the last window, and the latest windows, with this one where it is
  -- closed, were unhealthy ConsecutiveWindows times in a row or more.
  pub scale_signal_snapshot-recommends :
      (old : Option (ScaleSignalCalculator W)) (cfg : AutoscalingSignalConfig W)
      (ss : List (Sample W)) (s : Sample W)
      → IsClocked ss
      → suc (length ss) < 2 ^ 63
      → (scale_signal_snapshot
          (run_samples (some (configure_autoscaling_signal old cfg)) ss)
          s).0.recommended
        ≡ (let used = normalize_autoscaling_signal_config cfg in
            recommends used (log_samples used [] ss) s)
  scale_signal_snapshot-recommends old cfg ss s k h =
      let used = normalize_autoscaling_signal_config cfg in
      let run = run_samples-calculator_of used ss [] tt k (omega (arith, zero_run)) in
      rw (configure-calculator_of old cfg, run.0)
        (answered-recommended used (log_samples used [] ss) s run.1
          (omega (arith, run.2, zero_run)))
