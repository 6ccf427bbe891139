-- ===== src/HotKey/Tests.antt =====
-- A tracker with two slots is told of three keys.
use go_keylane.Base.{◌≡◌, refl, true, false, List, [], ◌∷◌}
use go_keylane.Base.Dict.{lookup, insert, erase}
use go_keylane.HotKey.Defs.{enabled, HotKeyConfig, new_hot_key_tracker, active_count}
use go_keylane.Base.Floats.{Fraction, fraction_float}
use go_keylane.HotKey.Defs.{throttle}
use go_keylane.HotKey.PerKey.{HotKeyRatios, PerKeyAdmissionConfig, ShardLoad, candidate}
use go_keylane.HotKey.Admission.{plan_per_key_admission, evaluate_per_key_admission}
use go_keylane.HotKey.Planning.{answer, plan_per_key_admission-evaluate}
use go_keylane.HotKey.Bounded.{
  Observation, submitted, enqueued, dequeued, rejected, started, decided, observed_all, IsBounded,
  observed_all-IsBounded,
}

abbrev config : HotKeyConfig
config = record {
  enabled = true;
  max_tracked_keys_per_shard = 2;
  detection_window = 100;
  expose_raw_key = false;
}

abbrev observations : List (Observation Fraction)
observations =
    submitted 7 0 "" 10
    ∷ enqueued 7 0 "" 11
    ∷ submitted 8 1 "" 12
    ∷ dequeued 7 13
    ∷ started 7 14
    ∷ submitted 9 0 "" 20
    ∷ rejected 8 200
    ∷ []

two_keys : active_count (observed_all (new_hot_key_tracker config) observations) ≡ 2
unfolding active_count observed_all new_hot_key_tracker enabled lookup insert erase
two_keys = refl

observed_all-IsBounded_example :
    IsBounded 2 (observed_all (new_hot_key_tracker config) observations)
observed_all-IsBounded_example = observed_all-IsBounded config observations

abbrev policy : PerKeyAdmissionConfig Fraction
policy = record {
  enabled = true;
  min_status = candidate;
  default_action = throttle;
  max_queued_per_key = 0;
  max_inflight_per_key = 0;
  pressure_ratio_threshold = (0, 1);
  reject_ratio_threshold = (0, 1);
  cooldown = 50;
  recovery_window = 100;
}

abbrev limits : HotKeyRatios Fraction
limits = record { depth_ratio = (1, 2); wait_ratio = (1, 2) }

abbrev load : ShardLoad Fraction
load = record { depth = 3; wait_nanos = 0; pressure = (1, 2) }

abbrev first_ones : List (Observation Fraction)
first_ones =
    submitted 7 0 "" 10
    ∷ enqueued 7 0 "" 11
    ∷ decided limits policy load 7 12
    ∷ enqueued 7 0 "" 12
    ∷ []

plan_per_key_admission-evaluate_example :
    answer (
      plan_per_key_admission limits policy load
        (observed_all (new_hot_key_tracker config) first_ones)
        7
        20)
    ≡ answer
        (evaluate_per_key_admission limits policy load
          (observed_all (new_hot_key_tracker config) first_ones)
          7
          20).1
plan_per_key_admission-evaluate_example =
    plan_per_key_admission-evaluate config first_ones limits policy load 7 20
