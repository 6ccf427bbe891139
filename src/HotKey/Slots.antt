-- ===== src/HotKey/Slots.antt =====
-- The index and the slots of internal/core/hotkey_tracker.go, apart from what else an entry holds.
use go_keylane.Base.{
  ℕ, zero, suc, ◌+◌, ◌≤◌, ◌<◌, ◌≡◌, ◌≢◌, sym, ap, ◌∙◌, inl, inr, some, List, [], ◌∷◌, length,
  get_or, set, get_or-set_self, get_or-set_ne, arith, Option-cases, ℕ_discrete,
}
use go_keylane.Base.Dict.{
  lookup, erase, IsUnique, lookup-erase, erase-IsUnique, length-erase_missing, length-erase_found,
}
use go_keylane.HotKey.Defs.{HotKeyEntry, zero_entry}

-- The hash in a slot; 0 out of range.
abbrev pub hash_at : List HotKeyEntry → ℕ → ℕ
hash_at es i = (get_or es i (zero_entry 0)).key_hash

-- The index has each key once, every key that it has stands in its slot, and it has the key of every
-- slot that is in use.
pub record Agrees (es : List HotKeyEntry) (m : List (ℕ × ℕ)) : Type 0 where
  pub unique : IsUnique m
  pub placed : (k i : ℕ) → lookup k m ≡ some i → (i < length es) × (hash_at es i ≡ k)
  pub listed : (i : ℕ) → hash_at es i ≢ 0 → lookup (hash_at es i) m ≡ some i

-- The same but for the slot `i` and the key `k`, which is about to be written there.
pub record AgreesBut (i k : ℕ) (es : List HotKeyEntry) (m : List (ℕ × ℕ)) : Type 0 where
  pub unique : IsUnique m
  pub placed :
      (q j : ℕ) → q ≢ k → lookup q m ≡ some j → (j < length es) × (hash_at es j ≡ q) × (j ≢ i)
  pub listed :
      (j : ℕ) → j ≢ i → hash_at es j ≢ 0 → (hash_at es j ≢ k) × (lookup (hash_at es j) m ≡ some j)

-- A table with the same hashes agrees as well.
pub Agrees-same :
    (es fs : List HotKeyEntry) (m : List (ℕ × ℕ))
    → length fs ≡ length es
    → ((j : ℕ) → hash_at fs j ≡ hash_at es j)
    → Agrees es m
    → Agrees fs m
Agrees-same es fs m len same a = record {
  unique = a.unique;
  placed = λ k i e. (let p = a.placed k i e in let s = same i in (omega arith, s ∙ p.1));
  listed = λ i ne. rw (same i) (a.listed i (λ z. ne (same i ∙ z)));
}

pub hash-set_self :
    (es : List HotKeyEntry) (i : ℕ) (e : HotKeyEntry)
    → i < length es
    → hash_at (set es i e) i ≡ e.key_hash
hash-set_self es i e h = ap (λ x. x.key_hash) (get_or-set_self es i e (zero_entry 0) h)

pub hash-set_ne :
    (es : List HotKeyEntry) (i j : ℕ) (e : HotKeyEntry)
    → i ≢ j
    → hash_at (set es i e) j ≡ hash_at es j
hash-set_ne es i j e h = ap (λ x. x.key_hash) (get_or-set_ne es i j e (zero_entry 0) h)

-- What is found after an erasure was there before, under another key.
pub found-erase :
    (k q j : ℕ) (m : List (ℕ × ℕ)) → lookup q (erase k m) ≡ some j → (q ≢ k) × (lookup q m ≡ some j)
found-erase k q j m e = ground (arith, lookup-erase k q m)

pub kept-erase :
    (k q j : ℕ) (m : List (ℕ × ℕ)) → q ≢ k → lookup q m ≡ some j → lookup q (erase k m) ≡ some j
kept-erase k q j m ne e = ground (arith, lookup-erase k q m)

not_last : (hash : ℕ → ℕ) (n q i : ℕ) → q ≢ hash n → i < suc n → hash i ≡ q → i < n
not_last hash n q i ne h e = elim (ℕ_discrete i n) [
  | yes s ↦ absurd (ne (sym e ∙ ap hash s))
  | no d ↦ (let apart : i ≢ n = d in omega arith)
]

length-erase : (k : ℕ) (m : List (ℕ × ℕ)) → IsUnique m → length m ≤ length (erase k m) + 1
length-erase k m u = elim (Option-cases (lookup k m)) [
  | inl e ↦ omega (arith, length-erase_missing k m e)
  | inr (v, e) ↦ omega (arith, length-erase_found k m v u e)
]

-- An index of distinct slots below `n` has at most `n` keys.
pub length-le :
    (hash : ℕ → ℕ) (n : ℕ) (m : List (ℕ × ℕ))
    → IsUnique m
    → ((k i : ℕ) → lookup k m ≡ some i → (i < n) × (hash i ≡ k))
    → length m ≤ n
unfolding lookup
length-le hash zero [] u p = omega arith
length-le hash zero ((k, i) ∷ m) u p = absurd (
    let found : lookup k ((k, i) ∷ m) ≡ some i = ground arith in
    let none_below = (p k i found).0 in omega arith)
length-le hash (suc n) m u p =
    let k : ℕ = hash n in
    let rest = length-le hash n (erase k m) (erase-IsUnique k m u) (λ q i e.
      (let (ne, e₁) = found-erase k q i m e in
        let (below, at) = p q i e₁ in (not_last hash n q i ne below at, at))) in
    let one = length-erase k m u in omega arith
