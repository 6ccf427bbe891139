-- ===== src/Overload/Keeping.antt =====
-- When evaluateOverload of internal/core/overload_policy.go lets a request pass, and what it sheds.
use go_keylane.Base.{
  ℕ, ◌≡◌, refl, sym, ◌∙◌, ap, Bool, true, false, not, ◌&&◌, Option, none, some, get_elem?, leb,
  if◌then◌else◌,
}
use go_keylane.Base.Floats.{Float}
use go_keylane.Quota.{is_some}
use go_keylane.Failure.Defs.{OverloadAction, keep, reject, shed, degrade}
use go_keylane.Retry.Suppression.{LaneClass, critical, normal, background, best_effort, other_class}
use go_keylane.Overload.Defs.{
  OverloadReason, no_reason, global_pressure_high, lane_pressure_high, degrade_preferred,
  LaneOverloadEntry, OverloadPolicySnapshot, OverloadSignals, OverloadEvalResult,
}
use go_keylane.Overload.Evaluate.{
  shedding_reason, by_ratio, evaluate_overload, overload_decision_from_entry, keep_result,
}

abbrev pub is_keep : OverloadAction → Bool
is_keep keep = true
is_keep _ = false

abbrev pub is_shed : OverloadAction → Bool
is_shed shed = true
is_shed _ = false

-- by_ratio, from what its tests answer.
abbrev choice :
    Bool → Bool → Bool → OverloadReason → Option OverloadReason → OverloadAction × OverloadReason
choice s d r why o =
    let rest : OverloadAction × OverloadReason =
      if d then (degrade, degrade_preferred) else if r then (reject, why) else (keep, no_reason) in
    if s then elim o [ some x ↦ (shed, x) | none ↦ rest ] else rest

choice-keep :
    (s d r : Bool) (why : OverloadReason) (o : Option OverloadReason)
    → is_keep (choice s d r why o).0 ≡ not (s && is_some o) && not d && not r
choice-keep true d r why (some x) = refl
choice-keep true true r why none = refl
choice-keep true false true why none = refl
choice-keep true false false why none = refl
choice-keep false true r why o = refl
choice-keep false false true why o = refl
choice-keep false false false why o = refl

choice-shed :
    (s d r : Bool) (why : OverloadReason) (o : Option OverloadReason)
    → is_shed (choice s d r why o).0 ≡ s && is_some o
choice-shed true d r why (some x) = refl
choice-shed true true r why none = refl
choice-shed true false true why none = refl
choice-shed true false false why none = refl
choice-shed false true r why o = refl
choice-shed false false true why o = refl
choice-shed false false false why o = refl

abbrev guard : Bool → Bool → Bool → OverloadAction → OverloadAction
guard c q d o = if c then reject else if q then reject else if d then reject else o

guard-keep :
    (c q d : Bool) (o : OverloadAction) {k : Bool}
    → is_keep o ≡ k
    → is_keep (guard c q d o) ≡ not c && not q && not d && k
guard-keep true q d o h = refl
guard-keep false true d o h = refl
guard-keep false false true o h = refl
guard-keep false false false o h = h

guard-shed :
    (c q d : Bool) (o : OverloadAction) {k : Bool}
    → is_shed o ≡ k
    → is_shed (guard c q d o) ≡ not c && not q && not d && k
guard-shed true q d o h = refl
guard-shed false true d o h = refl
guard-shed false false true o h = refl
guard-shed false false false o h = h

-- The classes that may be shed, by name.
abbrev pub may_be_shed : LaneClass → Bool
may_be_shed background = true
may_be_shed best_effort = true
may_be_shed critical = false
may_be_shed normal = false
may_be_shed (other_class name) = false

shedding_reason-is_some : (class : LaneClass) → is_some (shedding_reason class) ≡ may_be_shed class
shedding_reason-is_some critical = refl
shedding_reason-is_some normal = refl
shedding_reason-is_some background = refl
shedding_reason-is_some best_effort = refl
shedding_reason-is_some (other_class name) = refl

module _ {ℓ} {W : Type ℓ} ⦃f : Float W⦄ where
  open f use {ratio, lt, le}

  -- The pressure is at a threshold that is switched on.
  abbrev pub sheds : LaneOverloadEntry W → W → Bool
  sheds e p = (lt e.shed_above_ratio (ratio 1 1) && le e.shed_above_ratio p) && may_be_shed e.class

  abbrev pub degrades : LaneOverloadEntry W → W → Bool
  degrades e p = lt e.degrade_above_ratio (ratio 1 1) && le e.degrade_above_ratio p

  -- A request passes.
  abbrev pub passes : OverloadSignals W → LaneOverloadEntry W → Bool
  passes signals e =
      not signals.queue_closed
      && not signals.queue_full
      && not (leb e.max_queue_depth signals.lane_depth)
      && (not (sheds e signals.global_pressure)
          && not (degrades e signals.global_pressure)
          && not (le e.reject_above_ratio signals.global_pressure))

  by_ratio-keep :
      (e : LaneOverloadEntry W) (p : W)
      → is_keep (by_ratio e p).0
        ≡ not (sheds e p) && not (degrades e p) && not (le e.reject_above_ratio p)
  unfolding by_ratio
  by_ratio-keep e p = rw (sym (shedding_reason-is_some e.class)) (
      choice-keep (lt e.shed_above_ratio (ratio 1 1) && le e.shed_above_ratio p) (degrades e p)
        (le e.reject_above_ratio p)
        (if le (ratio 9 10) p then global_pressure_high else lane_pressure_high)
        (shedding_reason e.class))

  by_ratio-shed : (e : LaneOverloadEntry W) (p : W) → is_shed (by_ratio e p).0 ≡ sheds e p
  unfolding by_ratio
  by_ratio-shed e p = rw (sym (shedding_reason-is_some e.class)) (
      choice-shed (lt e.shed_above_ratio (ratio 1 1) && le e.shed_above_ratio p) (degrades e p)
        (le e.reject_above_ratio p)
        (if le (ratio 9 10) p then global_pressure_high else lane_pressure_high)
        (shedding_reason e.class))

  -- The action of a chain of guards before the last decision.
  guarded :
      (c q d : Bool) (o : OverloadAction) (x y z kept other : OverloadEvalResult W)
      → x.action ≡ reject
      → y.action ≡ reject
      → z.action ≡ reject
      → kept.action ≡ keep
      → other.action ≡ o
      → (if c
          then x
          else if q
          then y
          else if d
          then z
          else elim o [ keep ↦ kept | _ ↦ other ]).action
        ≡ guard c q d o
  guarded true q d o x y z kept other hx hy hz hk ho = hx
  guarded false true d o x y z kept other hx hy hz hk ho = hy
  guarded false false true o x y z kept other hx hy hz hk ho = hz
  guarded false false false keep x y z kept other hx hy hz hk ho = hk
  guarded false false false reject x y z kept other hx hy hz hk ho = ho
  guarded false false false shed x y z kept other hx hy hz hk ho = ho
  guarded false false false degrade x y z kept other hx hy hz hk ho = ho

  action_of :
      (snap : OverloadPolicySnapshot W) (lane : ℕ) (signals : OverloadSignals W)
      → {e : LaneOverloadEntry W} → get_elem? snap.lanes lane ≡ some e
      → (evaluate_overload snap lane signals).action
        ≡ guard signals.queue_closed signals.queue_full
            (leb e.max_queue_depth signals.lane_depth)
            (by_ratio e signals.global_pressure).0
  unfolding evaluate_overload overload_decision_from_entry keep_result
  action_of snap lane signals {e} h = rw h (
      guarded signals.queue_closed signals.queue_full (leb e.max_queue_depth signals.lane_depth)
        (by_ratio e signals.global_pressure).0 _ _ _ (keep_result snap signals e) _ refl refl refl
        refl refl)

  -- For a lane of the snapshot a request is kept just where the queue is open and not full, the lane is
  -- below its depth, and the pressure is below every threshold of the lane that is in use: the one for
  -- shedding is in use below 1 and on a lane of the class background or best_effort, the one for
  -- degrading below 1, and the one for rejecting always.
  pub evaluate_overload-keep :
      (snap : OverloadPolicySnapshot W) (lane : ℕ) (signals : OverloadSignals W)
      → {e : LaneOverloadEntry W} → get_elem? snap.lanes lane ≡ some e
      → is_keep (evaluate_overload snap lane signals).action ≡ passes signals e
  evaluate_overload-keep snap lane signals {e} h =
      ap is_keep (action_of snap lane signals h)
      ∙ guard-keep signals.queue_closed signals.queue_full
          (leb e.max_queue_depth signals.lane_depth) (by_ratio e signals.global_pressure).0
          (by_ratio-keep e signals.global_pressure)

  -- A request is shed.
  abbrev pub is_dropped : OverloadSignals W → LaneOverloadEntry W → Bool
  is_dropped signals e =
      not signals.queue_closed
      && not signals.queue_full
      && not (leb e.max_queue_depth signals.lane_depth)
      && sheds e signals.global_pressure

  -- For a lane of the snapshot a request is shed just where the queue is open and not full, the lane is
  -- below its depth and of the class background or best_effort, and its ShedAboveRatio is below 1 and the
  -- pressure has come to it.
  pub evaluate_overload-shed :
      (snap : OverloadPolicySnapshot W) (lane : ℕ) (signals : OverloadSignals W)
      → {e : LaneOverloadEntry W} → get_elem? snap.lanes lane ≡ some e
      → is_shed (evaluate_overload snap lane signals).action ≡ is_dropped signals e
  evaluate_overload-shed snap lane signals {e} h =
      ap is_shed (action_of snap lane signals h)
      ∙ guard-shed signals.queue_closed signals.queue_full
          (leb e.max_queue_depth signals.lane_depth) (by_ratio e signals.global_pressure).0
          (by_ratio-shed e signals.global_pressure)
