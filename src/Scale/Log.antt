-- ===== src/Scale/Log.antt =====
-- The windows that the calculator of internal/core/scale_signal.go has closed, and what follows from
-- them, without the calculator.
use go_keylane.Base.{
  ℕ, suc, ◌+◌, ◌-◌, ◌%◌, ◌^◌, Bool, true, not, ◌&&◌, ◌||◌, List, [], ◌∷◌, ltb, ◌==◌, if◌then◌else◌,
}
use go_keylane.Base.Ints.{ℤ, pos, int_leb, minus}
use go_keylane.Base.Floats.{Float}
use go_keylane.Scale.Triggers.{AutoscalingSignalConfig, ScaleSignalInput}
use go_keylane.Scale.Defs.{AdmissionCounterSample, Sample}
use go_keylane.Scale.Rates.{as_uint64}
use go_keylane.Scale.Firing.{is_unhealthy}

-- A window that was closed: when, the counters at that time, and what was found.
pub record Window : Type 0 where
  pub at : ℕ
  pub counters : AdmissionCounterSample
  pub unhealthy : Bool

-- How many of the latest windows, the newest first, were unhealthy in a row.
unfoldable pub unhealthy_run : List Window → ℕ
unhealthy_run [] = 0
unhealthy_run (w ∷ ws) = let rest = unhealthy_run ws in if w.unhealthy then suc rest else 0

abbrev pub closes : ℤ → List Window → ℕ → Bool
closes window [] now = true
closes window (w ∷ ws) now = int_leb window (minus now w.at)

-- What a 64-bit counter has gained.
abbrev pub since : ℕ → ℕ → ℕ
since a b = (a + 2 ^ 64 - b) % 2 ^ 64

module _ {ℓ} {W : Type ℓ} ⦃f : Float W⦄ where
  -- What ScaleSignalSnapshot has no signal for: no capacity, or no job that was submitted.
  abbrev pub no_data : Sample W → Bool
  no_data s = int_leb s.input.queue_capacity_total (pos 0) || s.counters.submitted == 0

  abbrev share : ℕ → ℕ → W
  share n d = if f.lt (f.ratio 1 1) (f.ratio n d) then f.ratio 1 1 else f.ratio n d

  -- What a counter has gained since the newest window, or since the start, for each job submitted in
  -- that time, and 1 at most.
  abbrev pub rate_of : (AdmissionCounterSample → ℕ) → List Window → Sample W → W
  rate_of x [] s =
      let now : AdmissionCounterSample = s.counters in
      if ltb 0 now.submitted then share (x now) now.submitted else f.ratio 0 1
  rate_of x (w ∷ ws) s =
      let now : AdmissionCounterSample = s.counters in
      let gained : ℕ = since now.submitted w.counters.submitted in
      if gained == 0
      then (if ltb 0 now.submitted && w.counters.submitted == 0
          then share (since (x now) (x w.counters)) now.submitted
          else f.ratio 0 1)
      else share (since (x now) (x w.counters)) gained

  -- The share of the queues that is taken.
  abbrev pub depth_share : ScaleSignalInput W → W
  depth_share inp =
      if ltb (as_uint64 inp.queue_capacity_total) 1
      then f.ratio 0 1
      else f.ratio (as_uint64 inp.queue_depth_total) (as_uint64 inp.queue_capacity_total)

  module _ (cfg : AutoscalingSignalConfig W) where
    -- The input of a sample, with the rates since the newest window.
    abbrev pub seen : List Window → Sample W → ScaleSignalInput W
    seen log s = record s.input {
      admission_rejected_rate = rate_of (λ c. c.rejected) log s;
      admission_shed_rate = rate_of (λ c. c.shed) log s;
      admission_throttled_rate = rate_of (λ c. c.throttled) log s;
    }

    abbrev pub finding : List Window → Sample W → Bool
    finding log s = is_unhealthy (seen log s) cfg (depth_share s.input)

    unfoldable pub log_window : List Window → Sample W → List Window
    unfolding is_unhealthy
    log_window log s =
        if closes cfg.window log s.now
        then record { at = s.now; counters = s.counters; unhealthy = finding log s } ∷ log
        else log

    unfoldable pub log_samples : List Window → List (Sample W) → List Window
    unfolding log_window
    log_samples log [] = log
    log_samples log (s ∷ ss) =
        log_samples (if not cfg.enabled || no_data s then log else log_window log s) ss

    -- A hot key in at most two hot shards.
    abbrev pub is_local : ScaleSignalInput W → Bool
    is_local inp =
        f.le cfg.localized_hot_key_ratio_threshold inp.localized_hot_key_ratio
        && int_leb inp.hot_shard_count (pos 2)

    unfoldable pub judged : List Window → Sample W → Bool
    unfolding log_window unhealthy_run is_unhealthy
    judged log s =
        not (no_data s)
        && (not (is_local s.input)
            && (finding log s
                && int_leb cfg.consecutive_windows (pos (unhealthy_run (log_window log s)))))

    unfoldable pub recommends : List Window → Sample W → Bool
    recommends log s = cfg.enabled && judged log s
