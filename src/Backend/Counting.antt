-- ===== src/Backend/Counting.antt =====
-- How a change of one lane of backend_coordinator.go reads at every lane.
use go_keylane.Base.{
  subst, ◌≡◌, inl, inr, refl, String, true, false, ◌&&◌, Option, none, some, List, [], ◌∷◌,
  Bool-cases, Option-cases, arith,
}
use text.Mathlib.Text.{◌==◌ as str_eq}
use text.Mathlib.TextEquality.{eq_iff}
use go_keylane.Registry.{find}
use go_keylane.Backend.Defs.{Coordinator, LaneState, alter, with_lane}
use go_keylane.Backend.Holding.{lane_at}

abbrev pub on_some {κ} : {A : Type κ} → (A → A) → Option A → Option A
on_some f none = none
on_some f (some a) = some (f a)

pub str_eq→≡ : (s t : String) → str_eq s t ≡ true → s ≡ t
str_eq→≡ s t e = (eq_iff s t).0 e

find-alter_same {κ} :
    {V : Type κ} (k : String) (f : V → V) (m : List (String × V))
    → find k (alter k f m) ≡ on_some f (find k m)
unfolding find alter
find-alter_same k f [] = refl
find-alter_same k f ((j, v) ∷ m) = ground (arith, find-alter_same k f m)

find-alter_other {κ} :
    {V : Type κ} (i k : String) (f : V → V) (m : List (String × V))
    → str_eq i k ≡ false
    → find k (alter i f m) ≡ find k m
unfolding find alter
find-alter_other i k f [] h = refl
find-alter_other i k f ((j, v) ∷ m) h =
    let swap : str_eq j i ≡ true → str_eq j k ≡ false = λ e. rw (str_eq→≡ j i e) h in
    ground (arith, swap, find-alter_other i k f m h)

same_resource :
    (c : Coordinator) (resource lane l : String) (f : LaneState → LaneState)
    → str_eq lane l ≡ false
    → lane_at (with_lane resource lane f c) resource l ≡ lane_at c resource l
unfolding lane_at
same_resource c resource lane l f h = elim (Option-cases (find resource c.resources)) [
  | inl e ↦ rw (find-alter_same resource (alter lane f) c.resources, e, lane_at) refl
  | inr (lanes, e) ↦
      rw (find-alter_same resource (alter lane f) c.resources, e, lane_at)
        (find-alter_other lane l f lanes h)
]

-- Any other lane is as it was.
pub lane_at-with_other :
    (c : Coordinator) (resource lane r l : String) (f : LaneState → LaneState)
    → (str_eq resource r && str_eq lane l) ≡ false
    → lane_at (with_lane resource lane f c) r l ≡ lane_at c r l
unfolding lane_at
lane_at-with_other c resource lane r l f h = elim (Bool-cases (str_eq resource r)) [
  | inl e ↦
      subst (λ x. lane_at (with_lane resource lane f c) x l ≡ lane_at c x l) (str_eq→≡ resource r e)
        (same_resource c resource lane l f (ground (arith, e, h)))
  | inr e ↦ rw (find-alter_other resource r (alter lane f) c.resources e, lane_at) refl
]

pub lane_at-with_same :
    (c : Coordinator) (resource lane : String) (f : LaneState → LaneState)
    → lane_at (with_lane resource lane f c) resource lane ≡ on_some f (lane_at c resource lane)
unfolding lane_at
lane_at-with_same c resource lane f = elim (Option-cases (find resource c.resources)) [
  | inl e ↦ rw (find-alter_same resource (alter lane f) c.resources, e, lane_at) refl
  | inr (lanes, e) ↦
      rw (find-alter_same resource (alter lane f) c.resources, e, lane_at)
        (find-alter_same lane f lanes)
]
