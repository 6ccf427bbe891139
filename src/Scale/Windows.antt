-- ===== src/Scale/Windows.antt =====
-- The calculator of internal/core/scale_signal.go beside the list of the windows it has closed.
use go_keylane.Base.{
  ℕ, suc, ◌^◌, ◌≤◌, ◌<◌, ◌≡◌, refl, ◌∙◌, ap, arith, ltb, Bool-cases, inl, inr, Bool, true, false,
  not, ◌&&◌, List, [], ◌∷◌, ◌==◌, if◌then◌else◌,
}
use go_keylane.Base.Ints.{pos, int_leb, minus, ◌+ℤ◌}
use go_keylane.Base.Floats.{Float}
use go_keylane.Scale.Triggers.{AutoscalingSignalConfig, ScaleSignalInput, evaluate_scale_triggers}
use go_keylane.Scale.Defs.{
  AdmissionCounterSample, no_counters, ScaleSignal, ScaleSignalCalculator, Sample,
}
use go_keylane.Scale.Rates.{depth_ratio_of, admission_rates}
use go_keylane.Scale.Signal.{
  is_localized, advance_window, first_signal, calculate, with_rates, locked_signal,
}
use go_keylane.Scale.Log.{
  Window, unhealthy_run, closes, no_data, since, seen, finding, log_window, judged,
}
use go_keylane.Admission.Pressure.{safe_ratio}
use go_keylane.Scale.Firing.{is_unhealthy, evaluate_scale_triggers-unhealthy}

abbrev newest_at : List Window → ℕ
newest_at [] = 0
newest_at (w ∷ ws) = w.at

abbrev newest_counters : List Window → AdmissionCounterSample
newest_counters [] = no_counters
newest_counters (w ∷ ws) = w.counters

abbrev pub IsDated : List Window → Type 0
IsDated [] = Unit
IsDated (w ∷ ws) = 1 ≤ w.at

pos-+ℤ : (n : ℕ) → suc n < 2 ^ 63 → (pos n +ℤ pos 1) ≡ pos (suc n)
pos-+ℤ n h = ground arith

ltb→zero : (n : ℕ) → ltb 0 n ≡ false → n ≡ 0
ltb→zero n h = ground arith

counted-pos :
    (u : Bool) (n : ℕ)
    → suc n < 2 ^ 63
    → (if u then pos n +ℤ pos 1 else pos 0) ≡ pos (if u then suc n else 0)
counted-pos true n h = pos-+ℤ n h
counted-pos false n h = refl

one_le-== : (n : ℕ) → 1 ≤ n → (n == 0) ≡ false
one_le-== n h = ground arith

module _ {ℓ} {W : Type ℓ} ⦃f : Float W⦄ where
  module _ (cfg : AutoscalingSignalConfig W) where
    unfoldable pub calculator_of : List Window → ScaleSignalCalculator W
    unfolding unhealthy_run
    calculator_of log = record {
      cfg = cfg;
      unhealthy_windows = pos (unhealthy_run log);
      last_sample_at = newest_at log;
      last_counters = newest_counters log;
    }

    seen_lem :
        (log : List Window) (s : Sample W)
        → IsDated log
        → with_rates (calculator_of log) s ≡ seen cfg log s
    unfolding with_rates calculator_of admission_rates
    seen_lem [] s d = elim (Bool-cases (ltb 0 s.counters.submitted)) [
      | inl e ↦ rw e refl
      | inr e ↦ rw (ltb→zero s.counters.submitted e) refl
    ]
    seen_lem (w ∷ ws) s d =
        elim (Bool-cases (since s.counters.submitted w.counters.submitted == 0)) [
          | inl e ↦ elim (Bool-cases (ltb 0 s.counters.submitted && w.counters.submitted == 0)) [
            | inl first ↦ rw (one_le-== w.at d, e, first) refl
            | inr first ↦ rw (one_le-== w.at d, e, first) refl
          ]
          | inr e ↦ rw (one_le-== w.at d, e) refl
        ]

    -- What calculate finds.
    abbrev found : List Window → Sample W → Bool
    found log s =
        let inp : ScaleSignalInput W = with_rates (calculator_of log) s in
        (evaluate_scale_triggers inp cfg (depth_ratio_of inp)).2

    found_lem : (log : List Window) (s : Sample W) → IsDated log → found log s ≡ finding cfg log s
    unfolding depth_ratio_of safe_ratio
    found_lem log s d =
        evaluate_scale_triggers-unhealthy _ cfg _
        ∙ ap (λ i. is_unhealthy i cfg (depth_ratio_of i)) (seen_lem log s d)

    advance_window-calculator_of :
        (log : List Window) (u : Bool) (counters : AdmissionCounterSample) (now : ℕ)
        → IsDated log
        → suc (unhealthy_run log) < 2 ^ 63
        → advance_window (calculator_of log) u counters now
          ≡ calculator_of (
              if closes cfg.window log now
              then record { at = now; counters = counters; unhealthy = u } ∷ log
              else log)
    unfolding advance_window calculator_of unhealthy_run
    advance_window-calculator_of [] true counters now d h = refl
    advance_window-calculator_of [] false counters now d h = refl
    advance_window-calculator_of (w ∷ ws) u counters now d h =
        rw (one_le-== w.at d) (elim (Bool-cases (int_leb cfg.window (minus now w.at))) [
          | inl e ↦ rw e (
              ap
                (λ k. record {
                  cfg = cfg;
                  unhealthy_windows = k;
                  last_sample_at = now;
                  last_counters = counters;
                })
                (counted-pos u (unhealthy_run (w ∷ ws)) h))
          | inr e ↦ rw e refl
        ])

    abbrev next_of : List Window → Sample W → ScaleSignalCalculator W
    next_of log s = advance_window (calculator_of log) (found log s) s.counters s.now

    next_of-calculator_of :
        (log : List Window) (s : Sample W)
        → IsDated log
        → suc (unhealthy_run log) < 2 ^ 63
        → next_of log s ≡ calculator_of (log_window cfg log s)
    unfolding log_window
    next_of-calculator_of log s d h =
        rw (found_lem log s d)
          (advance_window-calculator_of log (finding cfg log s) s.counters s.now d h)

    calculator_of-if :
        (b : Bool) (log log' : List Window)
        → (if b then calculator_of log else calculator_of log')
          ≡ calculator_of (if b then log else log')
    calculator_of-if true log log' = refl
    calculator_of-if false log log' = refl

    -- The three ways that calculate returns.
    abbrev Answer : Type ℓ
    Answer = ScaleSignal W × ScaleSignalCalculator W

    abbrev choose : Bool → Bool → Answer → Answer → Answer → Answer
    choose a b x y z = if a then x else if b then y else z

    chosen_next :
        (a b : Bool) (x y z : ScaleSignal W) (c n : ScaleSignalCalculator W)
        → (choose a b (x, c) (y, n) (z, n)).1 ≡ (if a then c else n)
    chosen_next true b x y z c n = refl
    chosen_next false true x y z c n = refl
    chosen_next false false x y z c n = refl

    chosen_recommended :
        (a b : Bool) (x y z : ScaleSignal W) (c n : ScaleSignalCalculator W)
        → x.recommended ≡ false
        → y.recommended ≡ false
        → (choose a b (x, c) (y, n) (z, n)).0.recommended ≡ (not a && (not b && z.recommended))
    chosen_recommended true b x y z c n e f = e
    chosen_recommended false true x y z c n e f = f
    chosen_recommended false false x y z c n e f = refl

    module _ (log : List Window) (s : Sample W) (d : IsDated log)
        (h : suc (unhealthy_run log) < 2 ^ 63) where
      pub snapshot-next :
          (locked_signal (calculator_of log) s).1
          ≡ calculator_of (if no_data s then log else log_window cfg log s)
      unfolding locked_signal calculate calculator_of with_rates depth_ratio_of
      snapshot-next =
          chosen_next (no_data s) (is_localized s.input cfg) _ _ _ _ _
          ∙ ap (if◌then◌else◌ (no_data s) (calculator_of log)) (next_of-calculator_of log s d h)
          ∙ calculator_of-if (no_data s) log (log_window cfg log s)

      pub snapshot-recommended :
          (locked_signal (calculator_of log) s).0.recommended ≡ judged cfg log s
      unfolding locked_signal calculate first_signal calculator_of with_rates depth_ratio_of judged
      snapshot-recommended =
          chosen_recommended (no_data s) (is_localized s.input cfg) _ _ _ _ _ refl refl
          ∙ rw
              (
                found_lem log s d,
                advance_window-calculator_of log (finding cfg log s) s.counters s.now d h,
              )
              refl
