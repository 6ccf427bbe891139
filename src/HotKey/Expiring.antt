-- ===== src/HotKey/Expiring.antt =====
-- What expireStaleEntriesLocked of internal/core/hotkey_tracker.go changes for an observer: nothing.
use go_keylane.Base.{
  ℕ, zero, suc, ◌+◌, ◌≡◌, ◌≢◌, refl, sym, ap, ◌∙◌, inl, inr, Bool, true, false, not, ◌||◌, Option,
  none, some, List, [], ◌∷◌, get_or, set, ◌==◌, arith, Bool-cases, ℕ_discrete, if◌then◌else◌,
}
use go_keylane.Base.Dict.{lookup, lookup-erase}
use go_keylane.Base.{get_or-set_ne}
use go_keylane.Counters.{u64}
use go_keylane.HotKey.Defs.{
  HotKeyTracker, HotKeyEntry, zero_entry, entry_at, hot_key_entry_stale, clear_entry,
  maybe_reset_entry,
}
use go_keylane.HotKey.Observe.{observed_slot, entry_for_observation, tracker_totals}
use go_keylane.HotKey.Slots.{hash_at, Agrees}
use go_keylane.HotKey.Keeping.{stale_used, is_zero_false}

abbrev pub is_stale : HotKeyTracker → ℕ → ℕ → Bool
is_stale t i now = hot_key_entry_stale (entry_at t i) t.cfg.detection_window now

or_taken {ℓ} : {A : Type ℓ} (b c : Bool) (x y : A) → c ≡ true → (if b || c then x else y) ≡ x
or_taken true c x y e = refl
or_taken false c x y e = rw e refl

totals-set :
    (es : List HotKeyEntry) (i epoch window now : ℕ)
    → hot_key_entry_stale (get_or es i (zero_entry 0)) window now ≡ true
    → tracker_totals (set es i (zero_entry epoch)) window now ≡ tracker_totals es window now
unfolding tracker_totals hot_key_entry_stale
totals-set [] i epoch window now s = refl
totals-set (e ∷ es) zero epoch window now s =
    let (sub, queued) = tracker_totals es window now in
    sym (
      or_taken (e.key_hash == 0) (hot_key_entry_stale e window now) (sub, queued)
        (u64 (e.submitted_approx + sub), e.queued_approx + queued) s)
totals-set (e ∷ es) (suc i) epoch window now s = rw (totals-set es i epoch window now s) refl

-- One slot after another.
module _ (t : HotKeyTracker) (i now : ℕ) where
  pub reset-cfg : (maybe_reset_entry t i now).cfg ≡ t.cfg
  unfolding maybe_reset_entry clear_entry
  reset-cfg = elim (Bool-cases (is_stale t i now)) [ inl s ↦ rw s refl | inr s ↦ rw s refl ]

  pub reset-totals :
      tracker_totals (maybe_reset_entry t i now).entries t.cfg.detection_window now
      ≡ tracker_totals t.entries t.cfg.detection_window now
  unfolding maybe_reset_entry clear_entry
  reset-totals = elim (Bool-cases (is_stale t i now)) [
    | inl s ↦ rw s (totals-set t.entries i t.epoch t.cfg.detection_window now s)
    | inr s ↦ rw s refl
  ]

  -- What is found of a key that is not the one in the cleared slot.
  other_slot :
      (key_hash : ℕ) (o : Option ℕ)
      → Agrees t.entries t.index
      → lookup key_hash t.index ≡ o
      → hash_at t.entries i ≢ key_hash
      → observed_slot (clear_entry t i (entry_at t i)) key_hash now o
        ≡ observed_slot t key_hash now o
  unfolding clear_entry
  other_slot key_hash none a e ne = refl
  other_slot key_hash (some j) a e ne =
      let at : hash_at t.entries j ≡ key_hash = (a.placed key_hash j e).1 in
      let apart : i ≢ j = λ s. ne (ap (hash_at t.entries) s ∙ at) in
      let same = get_or-set_ne t.entries i j (zero_entry t.epoch) (zero_entry 0) apart in
      rw same refl

  cleared-observation :
      (key_hash : ℕ)
      → Agrees t.entries t.index
      → is_stale t i now ≡ true
      → entry_for_observation (clear_entry t i (entry_at t i)) key_hash now
        ≡ entry_for_observation t key_hash now
  unfolding entry_for_observation clear_entry
  cleared-observation key_hash a s =
      let used : hash_at t.entries i ≢ 0 = stale_used (entry_at t i) t.cfg.detection_window now s in
      let e = is_zero_false (hash_at t.entries i) used in
      let erased = lookup-erase (hash_at t.entries i) key_hash t.index in
      let gone : HotKeyTracker = clear_entry t i (entry_at t i) in
      elim (ℕ_discrete key_hash (hash_at t.entries i)) [
        | yes k ↦
            (let none_now : lookup key_hash gone.index ≡ none = rw e (ground (arith, erased)) in
              let found : lookup key_hash t.index ≡ some i =
                ap (λ q. lookup q t.index) k ∙ a.listed i used in
              ap (observed_slot gone key_hash now) none_now
              ∙ sym (
                  ap (observed_slot t key_hash now) found
                  ∙ or_taken (not ((entry_at t i).key_hash == key_hash)) (is_stale t i now) none
                      (some (entry_at t i)) s))
        | no ne ↦
            (let same : lookup key_hash gone.index ≡ lookup key_hash t.index =
                rw e (ground (arith, erased)) in
              ap (observed_slot gone key_hash now) same
              ∙ other_slot key_hash (lookup key_hash t.index) a refl (λ q. ne (sym q)))
      ]

  pub reset-observation :
      (key_hash : ℕ)
      → Agrees t.entries t.index
      → entry_for_observation (maybe_reset_entry t i now) key_hash now
        ≡ entry_for_observation t key_hash now
  unfolding maybe_reset_entry
  reset-observation key_hash a = elim (Bool-cases (is_stale t i now)) [
    | inl s ↦ rw s (cleared-observation key_hash a s)
    | inr s ↦ rw s refl
  ]
