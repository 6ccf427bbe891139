-- ===== src/Base/Dict.antt =====
-- A Go map with numbers for keys, as an association list that holds a key at most once.
use Prim.Native.Nat.{ℕ, suc}
use mathlib.Core.Path.{◌≡◌, refl}
use mathlib.Core.List.{List, [], ◌∷◌}
use mathlib.Core.Option.{Option, none, some}
use native.Mathlib.Omega.{arith}
use go_keylane.Base.Tests.{◌==◌, if◌then◌else◌}
use go_keylane.Base.Lists.{length}

module _ {ℓ} {V : Type ℓ} where
  unfoldable pub lookup : ℕ → List (ℕ × V) → Option V
  lookup k [] = none
  lookup k ((j, v) ∷ m) = if j == k then some v else lookup k m

  -- `delete(m, k)`
  unfoldable pub erase : ℕ → List (ℕ × V) → List (ℕ × V)
  erase k [] = []
  erase k ((j, v) ∷ m) = let rest = erase k m in if j == k then rest else (j, v) ∷ rest

  -- `m[k] = v`
  unfoldable pub insert : ℕ → V → List (ℕ × V) → List (ℕ × V)
  insert k v m = (k, v) ∷ erase k m

  pub lookup-erase :
      (k j : ℕ) (m : List (ℕ × V)) → lookup j (erase k m) ≡ (if j == k then none else lookup j m)
  unfolding lookup erase
  lookup-erase k j [] = ground arith
  lookup-erase k j ((i, v) ∷ m) = ground (arith, lookup-erase k j m)

  pub lookup-insert :
      (k j : ℕ) (v : V) (m : List (ℕ × V))
      → lookup j (insert k v m) ≡ (if j == k then some v else lookup j m)
  unfolding lookup insert
  lookup-insert k j v m = ground (arith, lookup-erase k j m)

  -- No key stands twice.
  unfoldable pub IsUnique : List (ℕ × V) → Type ℓ
  IsUnique [] = Unit
  IsUnique ((k, v) ∷ m) = (lookup k m ≡ none) × IsUnique m

  pub erase-IsUnique : (k : ℕ) (m : List (ℕ × V)) → IsUnique m → IsUnique (erase k m)
  unfolding erase IsUnique
  erase-IsUnique k [] u = tt
  erase-IsUnique k ((j, v) ∷ m) u = ground (arith, erase-IsUnique k m, lookup-erase k j m)

  pub insert-IsUnique : (k : ℕ) (v : V) (m : List (ℕ × V)) → IsUnique m → IsUnique (insert k v m)
  unfolding insert IsUnique
  insert-IsUnique k v m u = ground (arith, erase-IsUnique k m, lookup-erase k k m)

  pub length-erase_missing :
      (k : ℕ) (m : List (ℕ × V)) → lookup k m ≡ none → length (erase k m) ≡ length m
  unfolding lookup erase
  length-erase_missing k [] h = refl
  length-erase_missing k ((j, v) ∷ m) h = ground (arith, length-erase_missing k m)

  pub length-erase_found :
      (k : ℕ) (m : List (ℕ × V)) (v : V)
      → IsUnique m
      → lookup k m ≡ some v
      → length m ≡ suc (length (erase k m))
  unfolding lookup erase IsUnique
  length-erase_found k [] v u h = cc
  length-erase_found k ((j, w) ∷ m) v u h =
      ground (arith, length-erase_found k m v u.1, length-erase_missing k m)
