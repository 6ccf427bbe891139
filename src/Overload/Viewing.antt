-- ===== src/Overload/Viewing.antt =====
-- The view of an overload policy of internal/core/overload_policy.go loses nothing of an entry.
use go_keylane.Base.{◌≡◌, ◌⊎◌, ◌&&◌, Bool, true, false, refl, String, inl, inr, Bool-cases}
use text.Mathlib.Text.{◌==◌ as str_eq}
use go_keylane.Base.Floats.{Float, IsExact, is_zero}
use go_keylane.Retry.Suppression.{LaneClass, critical, normal, background, best_effort, other_class}
use go_keylane.Overload.Defs.{
  LaneOverloadPolicyInput, class_or_normal, one_if_zero, lane_entry_from_input,
  lane_overload_policy_input_from_entry,
}

class_or_normal-twice : (c : LaneClass) → class_or_normal (class_or_normal c) ≡ class_or_normal c
class_or_normal-twice critical = refl
class_or_normal-twice normal = refl
class_or_normal-twice background = refl
class_or_normal-twice best_effort = refl
class_or_normal-twice (other_class name) = elim (Bool-cases (str_eq name "")) [
  | inl e ↦ simp e
  | inr e ↦ simp e
]

-- What stands in the entry for a class, which the empty text leaves to normal.
abbrev is_unset : LaneClass → Bool
is_unset (other_class name) = str_eq name ""
is_unset _ = false

abbrev pub IsClassFilled : LaneClass → LaneClass → Type 0
IsClassFilled c d = ((is_unset c ≡ true) × (d ≡ normal)) ⊎ ((is_unset c ≡ false) × (d ≡ c))

class_or_normal-IsClassFilled : (c : LaneClass) → IsClassFilled c (class_or_normal c)
class_or_normal-IsClassFilled critical = inr (refl, refl)
class_or_normal-IsClassFilled normal = inr (refl, refl)
class_or_normal-IsClassFilled background = inr (refl, refl)
class_or_normal-IsClassFilled best_effort = inr (refl, refl)
class_or_normal-IsClassFilled (other_class name) = elim (Bool-cases (str_eq name "")) [
  | inl e ↦ inl (e, rw e refl)
  | inr e ↦ inr (e, rw e refl)
]

module _ {ℓ} {W : Type ℓ} ⦃f : Float W⦄ (laws : IsExact W) where
  one_if_zero-twice : (x : W) → one_if_zero (one_if_zero x) ≡ one_if_zero x
  one_if_zero-twice x = elim (Bool-cases (is_zero x)) [
    | inl e ↦ simp (e, laws.positive 0 0)
    | inr e ↦ simp e
  ]

  -- What stands in the entry for a ratio, which 0 leaves to its default of 1.
  abbrev pub IsFilled : W → W → Type ℓ
  IsFilled x y =
      ((f.le x (f.ratio 0 1) && f.le (f.ratio 0 1) x ≡ true) × (y ≡ f.ratio 1 1))
      ⊎ ((f.le x (f.ratio 0 1) && f.le (f.ratio 0 1) x ≡ false) × (y ≡ x))

  one_if_zero-IsFilled : (x : W) → IsFilled x (one_if_zero x)
  one_if_zero-IsFilled x = elim (Bool-cases (is_zero x)) [
    | inl e ↦ inl (e, rw e refl)
    | inr e ↦ inr (e, rw e refl)
  ]

  -- The entry for an input has its class, or normal where it has none, its thresholds for shedding and
  -- degrading, or 1 where they are 0, and the entry that is built from its view is that entry.
  pub lane_entry_from_input-view :
      (lp : LaneOverloadPolicyInput W) (name : String)
      → let e = lane_entry_from_input lp in
        IsClassFilled lp.class e.class
        × IsFilled lp.shed_above_ratio e.shed_above_ratio
        × IsFilled lp.degrade_above_ratio e.degrade_above_ratio
        × (lane_entry_from_input (lane_overload_policy_input_from_entry e name) ≡ e)
  unfolding lane_entry_from_input lane_overload_policy_input_from_entry
  lane_entry_from_input-view lp name = (
    class_or_normal-IsClassFilled lp.class,
    one_if_zero-IsFilled lp.shed_above_ratio,
    one_if_zero-IsFilled lp.degrade_above_ratio,
    simp (
      class_or_normal-twice lp.class,
      one_if_zero-twice lp.shed_above_ratio,
      one_if_zero-twice lp.degrade_above_ratio,
    ),
  )
