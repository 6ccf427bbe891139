-- ===== src/HotKey/Choosing.antt =====
-- The slot that allocateSlot of internal/core/hotkey_tracker.go takes, and its removal from the index.
use go_keylane.Base.{
  ℕ, ◌+◌, ◌≤◌, ◌<◌, ◌≡◌, ◌≢◌, refl, ap, inl, inr, none, some, List, [], ◌∷◌, length, ltb, arith,
  Option-cases, ℕ_discrete, if◌then◌else◌,
}
use go_keylane.Base.Dict.{lookup, IsUnique}
use go_keylane.HotKey.Defs.{HotKeyEntry, erase_slot, free_slot, evict_from, slot_for}
use go_keylane.HotKey.Slots.{hash_at, Agrees, AgreesBut}

missing-erase_slot :
    (i q : ℕ) (m : List (ℕ × ℕ)) → lookup q m ≡ none → lookup q (erase_slot i m) ≡ none
unfolding erase_slot lookup
missing-erase_slot i q [] e = refl
missing-erase_slot i q ((h, j) ∷ m) e = ground (arith, missing-erase_slot i q m)

erase_slot-IsUnique : (i : ℕ) (m : List (ℕ × ℕ)) → IsUnique m → IsUnique (erase_slot i m)
unfolding erase_slot IsUnique
erase_slot-IsUnique i [] u = tt
erase_slot-IsUnique i ((h, j) ∷ m) u =
    ground (arith, erase_slot-IsUnique i m, missing-erase_slot i h m)

found-erase_slot :
    (i q j : ℕ) (m : List (ℕ × ℕ))
    → IsUnique m
    → lookup q (erase_slot i m) ≡ some j
    → (lookup q m ≡ some j) × (j ≢ i)
unfolding erase_slot lookup IsUnique
found-erase_slot i q j [] u e = cc
found-erase_slot i q j ((h, s) ∷ m) u e =
    ground (arith, found-erase_slot i q j m, missing-erase_slot i q m)

kept-erase_slot :
    (i q j : ℕ) (m : List (ℕ × ℕ))
    → lookup q m ≡ some j
    → j ≢ i
    → lookup q (erase_slot i m) ≡ some j
unfolding erase_slot lookup
kept-erase_slot i q j [] e ne = cc
kept-erase_slot i q j ((h, s) ∷ m) e ne = ground (arith, kept-erase_slot i q j m)

-- A free slot is taken out of the index by its number.
pub free-AgreesBut :
    (es : List HotKeyEntry) (m : List (ℕ × ℕ)) (i k : ℕ)
    → Agrees es m
    → hash_at es i ≡ 0
    → lookup k m ≡ none
    → AgreesBut i k es (erase_slot i m)
free-AgreesBut es m i k a free missing = record {
  unique = erase_slot-IsUnique i m a.unique;
  placed = λ q j nq e.
      (let (e₁, apart) = found-erase_slot i q j m a.unique e in
        let (below, at) = a.placed q j e₁ in (below, at, apart));
  listed = λ j apart used. (
    (λ s. (let e = a.listed j used in let f = ap (λ x. lookup x m) s in cc)),
    kept-erase_slot i (hash_at es j) j m (a.listed j used) apart,
  );
}

free_slot-lt : (es : List HotKeyEntry) (i : ℕ) {s : ℕ} → free_slot es i ≡ some s → s < i + length es
unfolding free_slot
free_slot-lt [] i e = cc
free_slot-lt (x ∷ es) i {s} e = elim (ℕ_discrete x.key_hash 0) [
  | yes z ↦ (let here : i ≡ s = ground arith in omega arith)
  | no ne ↦
      (let e₁ : free_slot es (i + 1) ≡ some s = ground arith in
        let h = free_slot-lt es (i + 1) e₁ in omega arith)
]

evict_from-lt :
    (es : List HotKeyEntry) (i evict seen bound : ℕ)
    → evict < bound
    → i + length es ≤ bound
    → evict_from es i evict seen < bound
unfolding evict_from
evict_from-lt [] i evict seen bound h k = h
evict_from-lt (e ∷ es) i evict seen bound h k =
    evict_from-lt es (i + 1) (if ltb e.last_seen seen then i else evict)
      (if ltb e.last_seen seen then e.last_seen else seen) bound (ground arith) (omega arith)

-- There is a slot to take wherever there is a slot.
pub slot_for-lt : (es : List HotKeyEntry) → 0 < length es → slot_for es < length es
unfolding slot_for
slot_for-lt [] h = absurd (omega arith)
slot_for-lt (e ∷ es) h = elim (Option-cases (free_slot (e ∷ es) 0)) [
  | inl n ↦
      rw (n, slot_for)
        (evict_from-lt es 1 0 e.last_seen (length (e ∷ es)) (omega arith) (omega arith))
  | inr (s, f) ↦ rw (f, slot_for) (let k = free_slot-lt (e ∷ es) 0 f in omega arith)
]
