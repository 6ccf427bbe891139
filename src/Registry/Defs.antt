-- ===== src/Registry/Defs.antt =====
-- The operations of internal/core/lane_registry.go.
use go_keylane.Base.{
  ℕ, ◌+◌, ◌%◌, String, Bool, false, ◌||◌, Option, none, some, List, [], ◌∷◌, ◌++◌, map, Result, ok,
  err, ◌>>◌, require, not, length, get_or, ltb, ◌==◌, if◌then◌else◌,
}
use text.Mathlib.Text.{◌==◌ as str_eq}
use go_keylane.Errors.{Error, missing_lane_quotas, invalid_lane, invalid_lane_quota}

-- A read of a map with texts for keys.
unfoldable pub find {ℓ} : {V : Type ℓ} → String → List (String × V) → Option V
find k [] = none
find k ((j, v) ∷ m) = if str_eq j k then some v else find k m

pub record LaneRegistry : Type 0 where
  pub ids : List (String × ℕ)
  pub names : List String
  pub quotas : List ℕ

unfoldable pub has_empty_name {ℓ} : {V : Type ℓ} → List (String × V) → Bool
has_empty_name [] = false
has_empty_name ((k, v) ∷ m) = str_eq k "" || has_empty_name m

abbrev pub lane_id : ℕ → ℕ
lane_id i = i % 65536

-- The loop over the sorted names. The slots are written from 0 on, so a write is an append.
unfoldable pub fill : List (String × ℕ) → List String → ℕ → LaneRegistry → Result Error LaneRegistry
fill quotas [] i r = ok r
fill quotas (name ∷ names) i r =
    let quota : ℕ = elim (find name quotas) [ none ↦ 0 | some n ↦ n ] in
    let rest = fill quotas names (i + 1) (record {
      ids = (name, lane_id i) ∷ r.ids;
      names = r.names ++ name ∷ [];
      quotas = r.quotas ++ quota ∷ [];
    }) in
    if ltb quota 1 then err invalid_lane_quota else rest

-- `quotas` is the map in the order of the range loop; a quota below 1 is 0 here.
unfoldable pub new_lane_registry :
    (List String → List String) → List (String × ℕ) → Result Error LaneRegistry
unfolding has_empty_name fill
new_lane_registry sort quotas = do
  require (not (length quotas == 0)) missing_lane_quotas
  require (not (has_empty_name quotas)) invalid_lane
  fill quotas (sort (map (λ e. e.0) quotas)) 0 (record { ids = []; names = []; quotas = [] })

unfoldable pub lookup_lane : LaneRegistry → String → Option ℕ
lookup_lane r lane = find lane r.ids

-- Out of range: 0, and the empty name.
unfoldable pub quota_of : LaneRegistry → ℕ → ℕ
quota_of r id = get_or r.quotas id 0

unfoldable pub name_of : LaneRegistry → ℕ → String
name_of r id = get_or r.names id ""

unfoldable pub lane_count : LaneRegistry → ℕ
lane_count r = length r.names
