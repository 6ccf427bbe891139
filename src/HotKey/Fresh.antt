-- ===== src/HotKey/Fresh.antt =====
-- After expireStaleEntriesLocked of internal/core/hotkey_tracker.go no entry is stale, and an observer
-- sees what it saw before.
use go_keylane.Base.{
  ℕ, zero, suc, ◌+◌, ◌≤◌, ◌≡◌, ◌≢◌, refl, sym, ap, ◌∙◌, subst, inl, inr, Bool, true, false, List,
  [], ◌∷◌, length, get_or, set, ◌==◌, arith, Bool-cases, ℕ_discrete, if◌then◌else◌,
}
use go_keylane.Base.{get_or-set_ne, length-set}
use go_keylane.HotKey.Defs.{
  HotKeyTracker, HotKeyEntry, zero_entry, entry_at, hot_key_entry_stale, clear_entry,
  maybe_reset_entry, expire_from, expire_stale_entries,
}
use go_keylane.HotKey.Observe.{entry_for_observation, tracker_totals}
use go_keylane.HotKey.Keeping.{IsTable, maybe_reset-IsTable}
use go_keylane.HotKey.Expiring.{is_stale, reset-cfg, reset-totals, reset-observation}

get_or-beyond :
    (es : List HotKeyEntry) (j : ℕ) → length es ≤ j → get_or es j (zero_entry 0) ≡ zero_entry 0
get_or-beyond [] j h = refl
get_or-beyond (e ∷ es) zero h = absurd (omega arith)
get_or-beyond (e ∷ es) (suc j) h = get_or-beyond es j (omega arith)

fresh_zero : (epoch window now : ℕ) → hot_key_entry_stale (zero_entry epoch) window now ≡ false
unfolding hot_key_entry_stale
fresh_zero epoch window now = refl

fresh_here :
    (es : List HotKeyEntry) (i epoch window now : ℕ)
    → hot_key_entry_stale (get_or (set es i (zero_entry epoch)) i (zero_entry 0)) window now ≡ false
fresh_here [] i epoch window now = fresh_zero 0 window now
fresh_here (e ∷ es) zero epoch window now = fresh_zero epoch window now
fresh_here (e ∷ es) (suc i) epoch window now = fresh_here es i epoch window now

true-false : ¬ (true ≡ false)
true-false e = cc

-- The cleared slot is not stale, and the others are as they were.
cleared-stale :
    (t : HotKeyTracker) (i now j : ℕ)
    → is_stale (clear_entry t i (entry_at t i)) j now ≡ true
    → (is_stale t j now ≡ true) × (j ≢ i)
unfolding clear_entry
cleared-stale t i now j s = elim (ℕ_discrete j i) [
  | no ne ↦
      (let same =
          get_or-set_ne t.entries i j (zero_entry t.epoch) (zero_entry 0) (λ e. ne (sym e)) in
        (ap (λ e. hot_key_entry_stale e t.cfg.detection_window now) (sym same) ∙ s, ne))
  | yes e ↦
      (let fresh = fresh_here t.entries i t.epoch t.cfg.detection_window now in
        let gone : HotKeyTracker = clear_entry t i (entry_at t i) in
        let f = ap (λ x. is_stale gone x now) e in absurd (true-false (sym s ∙ f ∙ fresh)))
]

-- What is stale after a slot was looked at was stale before, and is another slot.
reset-stale :
    (t : HotKeyTracker) (i now j : ℕ)
    → is_stale (maybe_reset_entry t i now) j now ≡ true
    → (is_stale t j now ≡ true) × (j ≢ i)
unfolding maybe_reset_entry clear_entry
reset-stale t i now j s = elim (Bool-cases (is_stale t i now)) [
  | inr f ↦
      (let s₁ : is_stale t j now ≡ true =
          subst (λ b. is_stale (if b then clear_entry t i (entry_at t i) else t) j now ≡ true) f
            s in
        (s₁, λ e. (let g = ap (λ x. is_stale t x now) e in cc)))
  | inl f ↦
      (let s₁ : is_stale (clear_entry t i (entry_at t i)) j now ≡ true =
          subst (λ b. is_stale (if b then clear_entry t i (entry_at t i) else t) j now ≡ true) f
            s in
        cleared-stale t i now j s₁)
]

reset-length :
    (t : HotKeyTracker) (i now : ℕ) → length (maybe_reset_entry t i now).entries ≡ length t.entries
unfolding maybe_reset_entry clear_entry
reset-length t i now = elim (Bool-cases (is_stale t i now)) [
  | inl s ↦ rw s (length-set t.entries i (zero_entry t.epoch))
  | inr s ↦ rw s refl
]

-- What is stale after `m` slots from `i` on were looked at was stale before, and is none of them.
expire_from-stale :
    (t : HotKeyTracker) (now i m j : ℕ)
    → is_stale (expire_from t now i m) j now ≡ true
    → (is_stale t j now ≡ true) × (i ≤ j → i + m ≤ j)
unfolding expire_from
expire_from-stale t now i zero j s = (s, λ h. omega arith)
expire_from-stale t now i (suc m) j s =
    let (s₁, past) = expire_from-stale (maybe_reset_entry t i now) now (i + 1) m j s in
    let (s₂, apart) = reset-stale t i now j s₁ in
    let other : j ≢ i = apart in
    (s₂, λ h. (let next : i + 1 ≤ j = omega arith in let k = past next in omega arith))

-- An observer of a tracker sees the same after its stale entries are cleared.
pub record SeesSame (t u : HotKeyTracker) (now : ℕ) : Type 0 where
  pub same_cfg : u.cfg ≡ t.cfg
  pub same_totals :
      tracker_totals u.entries t.cfg.detection_window now
      ≡ tracker_totals t.entries t.cfg.detection_window now
  pub same_entry :
      (key_hash : ℕ) → entry_for_observation u key_hash now ≡ entry_for_observation t key_hash now

expire_from-SeesSame :
    (n : ℕ) (t : HotKeyTracker) (now i m : ℕ) → IsTable n t → SeesSame t (expire_from t now i m) now
unfolding expire_from
expire_from-SeesSame n t now i zero h = record {
  same_cfg = refl;
  same_totals = refl;
  same_entry = λ k. refl;
}
expire_from-SeesSame n t now i (suc m) h =
    let u : HotKeyTracker = maybe_reset_entry t i now in
    let rest = expire_from-SeesSame n u now (i + 1) m (maybe_reset-IsTable n t i now h) in
    let cfg = reset-cfg t i now in
    record {
      same_cfg = rest.same_cfg ∙ cfg;
      same_totals =
          subst
            (λ c.
              tracker_totals (expire_from u now (i + 1) m).entries c.detection_window now
              ≡ tracker_totals u.entries c.detection_window now)
            cfg rest.same_totals
          ∙ reset-totals t i now;
      same_entry = λ k. rest.same_entry k ∙ reset-observation t i now k h.agrees;
    }

not_stale : (b : Bool) → ¬ (b ≡ true) → b ≡ false
not_stale true h = absurd (h refl)
not_stale false h = refl

no_window :
    (e : HotKeyEntry) (window now : ℕ)
    → (window == 0) ≡ true
    → hot_key_entry_stale e window now ≡ false
unfolding hot_key_entry_stale
no_window e window now h = ground arith

-- After the whole table was looked at, none of its entries is stale.
pub expire_stale-fresh :
    (t : HotKeyTracker) (now j : ℕ) → is_stale (expire_stale_entries t now) j now ≡ false
unfolding expire_stale_entries
expire_stale-fresh t now j = elim (Bool-cases (t.cfg.detection_window == 0)) [
  | inl w ↦ rw (w, expire_stale_entries) (no_window (entry_at t j) t.cfg.detection_window now w)
  | inr w ↦
      rw (w, expire_stale_entries)
        (not_stale _ (λ s.
          (let (s₁, past) = expire_from-stale t now 0 (length t.entries) j s in
            let out : length t.entries ≤ j = (let k = past (omega arith) in omega arith) in
            let e =
              ap (λ x. hot_key_entry_stale x t.cfg.detection_window now)
                (get_or-beyond t.entries j out) in
            true-false (sym s₁ ∙ e ∙ fresh_zero 0 t.cfg.detection_window now))))
]

pub expire_stale-SeesSame :
    (n : ℕ) (t : HotKeyTracker) (now : ℕ)
    → IsTable n t
    → SeesSame t (expire_stale_entries t now) now
unfolding expire_stale_entries
expire_stale-SeesSame n t now h = elim (Bool-cases (t.cfg.detection_window == 0)) [
  | inl w ↦
      rw (w, expire_stale_entries)
        (record { same_cfg = refl; same_totals = refl; same_entry = λ k. refl })
  | inr w ↦ rw (w, expire_stale_entries) (expire_from-SeesSame n t now 0 (length t.entries) h)
]
