-- ===== src/Overload/Tests.antt =====
-- Two lanes, the second one of the class best_effort, at a pressure of 0.85.
use go_keylane.Base.{◌≡◌, refl, String, true, false, [], ◌∷◌}
use go_keylane.Base.Ints.{pos}
use go_keylane.Base.Floats.{Fraction, fraction_float, Fraction-IsExact}
use go_keylane.Retry.Suppression.{LaneClass}
use go_keylane.Overload.Defs.{
  LaneOverloadPolicyInput, OverloadPolicySnapshot, OverloadSignals, lane_entry_from_input,
  lane_overload_policy_input_from_entry,
}
use go_keylane.Overload.Evaluate.{evaluate_overload}
use go_keylane.Overload.Keeping.{
  is_keep, is_shed, passes, is_dropped, evaluate_overload-keep, evaluate_overload-shed,
}
use go_keylane.Overload.Viewing.{IsClassFilled, IsFilled, lane_entry_from_input-view}

abbrev named : String → LaneClass → LaneOverloadPolicyInput Fraction
named lane class = record {
  lane = lane;
  class = class;
  reject_above_ratio = (9, 10);
  shed_above_ratio = (8, 10);
  degrade_above_ratio = (0, 1);
  max_queue_depth = 100;
  retry_after = pos 250;
  min_backoff = pos 100;
  max_backoff = pos 2000;
  jitter = true;
}

abbrev unset : LaneOverloadPolicyInput Fraction
unset = named "reports" (LaneClass.other_class "")

abbrev mail : LaneOverloadPolicyInput Fraction
mail = named "mail" LaneClass.best_effort

abbrev two_lanes : OverloadPolicySnapshot Fraction
unfolding lane_entry_from_input
two_lanes = record {
  version = 1;
  default_policy = lane_entry_from_input (named "" LaneClass.normal);
  lanes = lane_entry_from_input unset ∷ lane_entry_from_input mail ∷ [];
}

abbrev busy : OverloadSignals Fraction
busy = record {
  global_pressure = (85, 100);
  lane_pressure = (85, 100);
  lane_depth = 12;
  queue_full = false;
  queue_closed = false;
}

evaluate_overload-keep_example :
    is_keep (evaluate_overload two_lanes 0 busy).action ≡ passes busy (lane_entry_from_input unset)
unfolding two_lanes
evaluate_overload-keep_example = evaluate_overload-keep two_lanes 0 busy refl

evaluate_overload-shed_example :
    is_shed (evaluate_overload two_lanes 1 busy).action
    ≡ is_dropped busy (lane_entry_from_input mail)
unfolding two_lanes
evaluate_overload-shed_example = evaluate_overload-shed two_lanes 1 busy refl

lane_entry_from_input-view_example :
    let e = lane_entry_from_input unset in
    IsClassFilled unset.class e.class
    × IsFilled Fraction-IsExact unset.shed_above_ratio e.shed_above_ratio
    × IsFilled Fraction-IsExact unset.degrade_above_ratio e.degrade_above_ratio
    × (lane_entry_from_input (lane_overload_policy_input_from_entry e "reports") ≡ e)
lane_entry_from_input-view_example = lane_entry_from_input-view Fraction-IsExact unset "reports"
