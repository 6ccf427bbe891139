-- ===== src/HotKey/Agreeing.antt =====
-- What the operations of internal/core/hotkey_tracker.go on one slot do to the index.
use go_keylane.Base.{
  ℕ, ◌<◌, ◌≡◌, ◌≢◌, sym, ap, ◌∙◌, Option, none, some, List, length, set, length-set, arith,
  ℕ_discrete,
}
use go_keylane.Base.Dict.{lookup, erase, insert, lookup-insert, erase-IsUnique, insert-IsUnique}
use go_keylane.HotKey.Defs.{HotKeyEntry, zero_entry}
use go_keylane.HotKey.Slots.{
  hash_at, Agrees, AgreesBut, hash-set_self, hash-set_ne, found-erase, kept-erase,
}

same_slot : {a b : ℕ} {o : Option ℕ} → o ≡ some a → o ≡ some b → a ≡ b
same_slot e f = cc

-- A slot that is found by a key is in range and holds it.
module _ (es : List HotKeyEntry) (m : List (ℕ × ℕ)) (a : Agrees es m) where
  in_range : (i : ℕ) → hash_at es i ≢ 0 → i < length es
  in_range i ne = (a.placed (hash_at es i) i (a.listed i ne)).0

  -- Two slots with one hash are one slot.
  one_slot : (i j : ℕ) → hash_at es i ≢ 0 → hash_at es j ≢ 0 → hash_at es i ≡ hash_at es j → i ≡ j
  one_slot i j ni nj e = same_slot (a.listed i ni) (ap (λ h. lookup h m) e ∙ a.listed j nj)

  pub clear-Agrees :
      (i epoch : ℕ)
      → hash_at es i ≢ 0
      → Agrees (set es i (zero_entry epoch)) (erase (hash_at es i) m)
  clear-Agrees i epoch used =
      let h : ℕ = hash_at es i in
      let fs : List HotKeyEntry = set es i (zero_entry epoch) in
      let len = length-set es i (zero_entry epoch) in
      let cleared : hash_at fs i ≡ 0 = hash-set_self es i (zero_entry epoch) (in_range i used) in
      record {
        unique = erase-IsUnique h m a.unique;
        placed = λ k j e.
            (let (ne, e₁) = found-erase h k j m e in
              let (below, at) = a.placed k j e₁ in
              let apart : i ≢ j = λ s. ne (sym at ∙ ap (hash_at es) (sym s)) in
              (omega arith, hash-set_ne es i j (zero_entry epoch) apart ∙ at));
        listed = λ j ne.
            (let apart : i ≢ j = λ s. ne (ap (hash_at fs) (sym s) ∙ cleared) in
              let same = hash-set_ne es i j (zero_entry epoch) apart in
              let used_j : hash_at es j ≢ 0 = λ z. ne (same ∙ z) in
              rw same (
                kept-erase h (hash_at es j) j m (λ s. apart (one_slot i j used used_j (sym s)))
                  (a.listed j used_j)));
      }

  pub used-AgreesBut :
      (i k : ℕ) → hash_at es i ≢ 0 → lookup k m ≡ none → AgreesBut i k es (erase (hash_at es i) m)
  used-AgreesBut i k used missing =
      let h : ℕ = hash_at es i in
      record {
        unique = erase-IsUnique h m a.unique;
        placed = λ q j nq e.
            (let (ne, e₁) = found-erase h q j m e in
              let (below, at) = a.placed q j e₁ in
              (below, at, λ s. ne (sym at ∙ ap (hash_at es) s)));
        listed = λ j apart used_j. (
          (λ s. (let e = a.listed j used_j in let f = ap (λ x. lookup x m) s in cc)),
          kept-erase h (hash_at es j) j m (λ s. apart (sym (one_slot i j used used_j (sym s))))
              (a.listed j used_j),
        );
      }

  -- The key 0 is written to the slot again.
  pub zero-AgreesBut : (i : ℕ) → hash_at es i ≡ 0 → AgreesBut i 0 es m
  zero-AgreesBut i free = record {
    unique = a.unique;
    placed = λ q j nq e.
        (let (below, at) = a.placed q j e in
          (below, at, λ s. nq (sym at ∙ ap (hash_at es) s ∙ free)));
    listed = λ j apart used_j. (used_j, a.listed j used_j);
  }

  pub cleared-AgreesBut :
      (i k epoch : ℕ)
      → lookup k m ≡ some i
      → k ≢ 0
      → AgreesBut i k (set es i (zero_entry epoch)) (erase k m)
  cleared-AgreesBut i k epoch found nz =
      let at : hash_at es i ≡ k = (a.placed k i found).1 in
      let used : hash_at es i ≢ 0 = λ z. nz (sym at ∙ z) in
      let fs : List HotKeyEntry = set es i (zero_entry epoch) in
      let len = length-set es i (zero_entry epoch) in
      record {
        unique = erase-IsUnique k m a.unique;
        placed = λ q j nq e.
            (let (ne, e₁) = found-erase k q j m e in
              let (below, at_j) = a.placed q j e₁ in
              let apart : i ≢ j = λ s. ne (sym at_j ∙ ap (hash_at es) (sym s) ∙ at) in
              (
                omega arith,
                hash-set_ne es i j (zero_entry epoch) apart ∙ at_j,
                λ s. apart (sym s),
              ));
        listed = λ j apart used_j.
            (let same = hash-set_ne es i j (zero_entry epoch) (λ s. apart (sym s)) in
              let was_used : hash_at es j ≢ 0 = λ z. used_j (same ∙ z) in
              let ne : hash_at es j ≢ k =
                λ s. apart (sym (one_slot i j used was_used (at ∙ sym s))) in
              (
                (λ s. ne (sym same ∙ s)),
                rw same (kept-erase k (hash_at es j) j m ne (a.listed j was_used)),
              ));
      }

-- The slot is written and the key is put in the index.
pub init-Agrees :
    (es : List HotKeyEntry) (m : List (ℕ × ℕ)) (i k : ℕ) (e : HotKeyEntry)
    → AgreesBut i k es m
    → i < length es
    → e.key_hash ≡ k
    → Agrees (set es i e) (insert k i m)
init-Agrees es m i k e b below at =
    let fs : List HotKeyEntry = set es i e in
    let len = length-set es i e in
    let here : hash_at fs i ≡ k = hash-set_self es i e below ∙ at in
    record {
      unique = insert-IsUnique k i m b.unique;
      placed = λ q j f. elim (ℕ_discrete q k) [
        | yes s ↦
            (let slot : j ≡ i = ground (arith, lookup-insert k q i m) in
              (omega arith, ap (hash_at fs) slot ∙ here ∙ sym s))
        | no ne ↦
            (let found : lookup q m ≡ some j = ground (arith, lookup-insert k q i m) in
              let (in_es, hash, apart) = b.placed q j ne found in
              (omega arith, hash-set_ne es i j e (λ s. apart (sym s)) ∙ hash))
      ];
      listed = λ j used. elim (ℕ_discrete j i) [
        | yes s ↦
            (let hash : hash_at fs j ≡ k = ap (hash_at fs) s ∙ here in
              rw (hash, s) (ground (arith, lookup-insert k k i m)))
        | no ne ↦
            (let same = hash-set_ne es i j e (λ s. ne (sym s)) in
              let (other, found) = b.listed j ne (λ z. used (same ∙ z)) in
              rw same (ground (arith, lookup-insert k (hash_at es j) i m)))
      ];
    }
