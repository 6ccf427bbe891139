-- ===== src/Adaptive/Tests.antt =====
-- A scheduler with two lanes under pressure, and the identity for a sort of at most one candidate.
use go_keylane.Base.{ℕ, ◌≡◌, ◌≤◌, ◌⊎◌, ◌+◌, refl, true, false, String, List, [], ◌∷◌, All, arith}
use go_keylane.Base.Ints.{pos}
use go_keylane.Base.Floats.{Fraction, fraction_float}
use go_keylane.Registry.{LaneRegistry, find}
use go_keylane.Retry.Suppression.{LaneClass}
use go_keylane.Scheduler.State.{new_scheduler}
use go_keylane.Admission.Defs.{AdmissionPolicySnapshot}
use go_keylane.Adaptive.Defs.{
  AdaptiveQuotaConfig, AdaptiveSignalSnapshot, AdaptiveControllerState,
  new_adaptive_controller_state, Lane,
}
use go_keylane.Adaptive.Apply.{LaneCandidate, evaluate_adaptive_quota}
use go_keylane.Adaptive.Tick.{Ticking, tick}
use go_keylane.Adaptive.Resolve.{LaneAdaptivePolicy, resolve_adaptive_lane_policies}
use go_keylane.Adaptive.Config.{
  ClientConfig, default_adaptive_quota_config, normalize_adaptive_quota_config,
  adaptive_quota_config_to_core, validate_adaptive_quota_policy,
}
use go_keylane.Adaptive.Resolving.{InOrder}
use go_keylane.Adaptive.Checked.{Steps, validate_adaptive_quota_policy-InOrder}
use go_keylane.Adaptive.Bounds.{AllAdjust, evaluate_adaptive_quota-AllAdjust}
use go_keylane.Adaptive.Counted.{adjustments, evaluate_adaptive_quota-limit}
use go_keylane.Adaptive.Once.{tick_publishes_once}

abbrev unsorted : List LaneCandidate → List LaneCandidate
unsorted cs = cs

abbrev client : ClientConfig Fraction
unfolding default_adaptive_quota_config
client = record (default_adaptive_quota_config {W = Fraction}) {
  enabled = true;
  max_adjustments_per_tick = pos 2;
}

abbrev config : AdaptiveQuotaConfig Fraction
unfolding adaptive_quota_config_to_core
config = adaptive_quota_config_to_core client false

abbrev lane : String → LaneClass → ℕ → Lane
lane name class id = (
  record {
    lane_id = id;
    lane = name;
    class = class;
    enabled = true;
    min_quota = 1;
    max_quota = 8;
    allow_increase = false;
    allow_decrease = true;
    target_queue_wait = pos 100_000_000;
    target_run_time = pos 0;
  },
  record {
    current_quota = 4;
    queue_depth = 90;
    in_flight = 2;
    queue_wait_avg = pos 1000;
    queue_wait_max = pos 5000;
    queue_wait_samples = 3;
    run_avg = pos 10;
    run_max = pos 20;
    overload_reject_count = 0;
    overload_shed_count = 0;
    overload_degrade_count = 0;
    queue_full_count = 0;
  },
)

abbrev signals : AdaptiveSignalSnapshot Fraction
signals = record {
  global_pressure = (9, 10);
  lanes = lane "mail" LaneClass.best_effort 0 ∷ lane "reports" LaneClass.background 1 ∷ [];
  policy_version = 1;
  quota_version = 0;
}

abbrev fresh : AdaptiveControllerState Fraction
unfolding new_adaptive_controller_state
fresh = new_adaptive_controller_state 0

abbrev later : ℕ
later = 6_000_000_000

-- Both lanes are lowered: two adjustments are allowed.
two_lowered : adjustments (evaluate_adaptive_quota unsorted config signals fresh later) ≡ 2
unfolding config client fresh adjustments evaluate_adaptive_quota
two_lowered = refl

evaluate_adaptive_quota-limit_example :
    adjustments (evaluate_adaptive_quota unsorted config signals fresh later) ≤ 2
unfolding config client
evaluate_adaptive_quota-limit_example =
    evaluate_adaptive_quota-limit unsorted config signals fresh later

evaluate_adaptive_quota-AllAdjust_example :
    AllAdjust config signals.lanes (evaluate_adaptive_quota unsorted config signals fresh later)
unfolding config client
evaluate_adaptive_quota-AllAdjust_example =
    evaluate_adaptive_quota-AllAdjust unsorted config signals fresh later (λ P cs h. h) refl
      (omega arith, omega arith, omega arith)
      (
        (omega arith, omega arith, omega arith, omega arith, omega arith),
        ((omega arith, omega arith, omega arith, omega arith, omega arith), tt),
      )

abbrev registry : LaneRegistry
registry = record {
  ids = ("mail", 0) ∷ ("reports", 1) ∷ [];
  names = "mail" ∷ "reports" ∷ [];
  quotas = 4 ∷ 4 ∷ [];
}

abbrev before : Ticking Fraction
unfolding new_scheduler
before = record { sched = new_scheduler 1 1 16 registry; state = fresh; emitted = [] }

tick_publishes_once_example :
    ((tick unsorted config signals later (λ i. false) before).sched.quota_version ≡ 0)
    ⊎ ((tick unsorted config signals later (λ i. false) before).sched.quota_version ≡ 0 + 1)
unfolding before
tick_publishes_once_example =
    tick_publishes_once unsorted config signals later (λ i. false) before refl (omega arith)

abbrev explicit : LaneAdaptivePolicy
explicit = record {
  lane = "mail";
  class = LaneClass.best_effort;
  enabled = true;
  min_quota = pos 2;
  max_quota = pos 16;
  allow_increase = false;
  allow_decrease = true;
  target_queue_wait = pos 0;
  target_run_time = pos 0;
}

abbrev admission : AdmissionPolicySnapshot Fraction
admission = record {
  version = 1;
  default_entry = record {
    class = LaneClass.normal;
    reject_above_ratio = (9, 10);
    max_queue_depth = 16;
  };
  lanes = [];
}

validate_adaptive_quota_policy-InOrder_example :
    All InOrder (
      resolve_adaptive_lane_policies registry admission
        (explicit ∷ [])
        (("mail", 4) ∷ ("reports", 4) ∷ []))
    × Steps (adaptive_quota_config_to_core (normalize_adaptive_quota_config client) false)
unfolding client validate_adaptive_quota_policy find
validate_adaptive_quota_policy-InOrder_example =
    validate_adaptive_quota_policy-InOrder (record { config = client; lanes = explicit ∷ [] })
      (("mail", 4) ∷ ("reports", 4) ∷ []) (("mail", 4) ∷ ("reports", 4) ∷ []) registry admission
      false refl refl
