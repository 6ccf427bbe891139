-- ===== src/Admission/Tests.antt =====
-- Two lanes, the second one with a policy of its own, at a pressure of 0.85.
use go_keylane.Base.{ℕ, ◌≡◌, refl, true, false, List, [], ◌∷◌, get_elem?, arith}
use go_keylane.Base.Floats.{Fraction, fraction_float}
use go_keylane.Registry.{LaneRegistry, lookup_lane, find, lane_count, name_of}
use go_keylane.Retry.Suppression.{LaneClass}
use go_keylane.LaneQueue.{LaneQueue, new_lane_queue, depth}
use go_keylane.Shard.{Shard, sum, total_depth, total_depths}
use go_keylane.Quota.{tabulate}
use go_keylane.Admission.Pressure.{collect_pressure_totals, lane_queue_depth}
use go_keylane.Scheduler.State.{LifecycleState}
use go_keylane.Scheduler.Policy.{is_stopping}
use go_keylane.Admission.Updating.{update_admission_policy-current}
use go_keylane.Admission.Totals.{all_depths, collect_pressure_totals-depth}
use go_keylane.Admission.Defs.{
  LaneAdmissionEntry, AdmissionPolicyInput, AdmissionPolicySnapshot, AdmissionState,
  update_admission_policy, current_admission_policy_view, build_admission_policy_snapshot,
}
use go_keylane.Admission.Evaluate.{is_open, evaluate_admission, evaluate_admission-admit}
use go_keylane.Admission.Valid.{IsValidSnapshot, build_admission_policy_snapshot-IsValidSnapshot}

-- Two shards with two lanes each, with three jobs in all.
abbrev queue : ℕ → LaneQueue
unfolding new_lane_queue
queue n = record (new_lane_queue 4) { tail = n; size = n }

abbrev shards : List (Shard × ℕ)
shards =
    (record { ready = true; lanes = queue 2 ∷ queue 0 ∷ [] }, 1)
    ∷ (record { ready = true; lanes = queue 0 ∷ queue 1 ∷ [] }, 0)
    ∷ []

collect_pressure_totals-depth_example :
    (collect_pressure_totals shards).depth_sum ≡ sum (tabulate (lane_queue_depth shards) 0 2)
unfolding queue all_depths total_depth total_depths depth
collect_pressure_totals-depth_example =
    collect_pressure_totals-depth shards 2 (refl, (refl, tt)) (omega arith)

abbrev entry : LaneClass → ℕ → LaneAdmissionEntry Fraction
entry class tenths = record {
  class = class;
  reject_above_ratio = (tenths, 10);
  max_queue_depth = 100;
}

abbrev registry : LaneRegistry
registry = record {
  ids = ("default", 0) ∷ ("mail", 1) ∷ [];
  names = "default" ∷ "mail" ∷ [];
  quotas = 1 ∷ 1 ∷ [];
}

abbrev policy : AdmissionPolicyInput Fraction
policy = record {
  default_entry = entry LaneClass.normal 9;
  lanes = record { lane = "mail"; entry = entry LaneClass.best_effort 8 } ∷ [];
}

abbrev snapshot : AdmissionPolicySnapshot Fraction
snapshot = record {
  version = 0;
  default_entry = entry LaneClass.normal 9;
  lanes = entry LaneClass.normal 9 ∷ entry LaneClass.best_effort 8 ∷ [];
}

build_admission_policy_snapshot-IsValidSnapshot_example : IsValidSnapshot registry snapshot
unfolding build_admission_policy_snapshot lookup_lane find lane_count name_of
build_admission_policy_snapshot-IsValidSnapshot_example =
    build_admission_policy_snapshot-IsValidSnapshot registry policy refl

evaluate_admission-admit_example :
    (evaluate_admission snapshot 1 (85, 100) 12).admit
    ≡ is_open (get_elem? snapshot.lanes 1) (85, 100) 12
evaluate_admission-admit_example = evaluate_admission-admit snapshot 1 (85, 100) 12

abbrev before : AdmissionState Fraction
before = record { admission_version = 6; admission_policy = snapshot }

update_admission_policy-current_example :
    (is_stopping LifecycleState.state_running ≡ false)
    × ((current_admission_policy_view registry
          (update_admission_policy registry LifecycleState.state_running before
            policy).0.admission_policy).0
        ≡ 7)
    × ((current_admission_policy_view registry
          (update_admission_policy registry LifecycleState.state_running before
            policy).0.admission_policy).1.default_entry
        ≡ policy.default_entry)
    × IsValidSnapshot registry
        (update_admission_policy registry LifecycleState.state_running before
          policy).0.admission_policy
unfolding update_admission_policy lookup_lane find lane_count name_of
    build_admission_policy_snapshot
update_admission_policy-current_example =
    update_admission_policy-current registry LifecycleState.state_running before policy refl
