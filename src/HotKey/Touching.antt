-- ===== src/HotKey/Touching.antt =====
-- `touch` of internal/core/hotkey_tracker.go keeps the index and the slots in agreement.
use go_keylane.Base.{
  ℕ, ◌<◌, ◌≡◌, ◌≢◌, refl, sym, ◌∙◌, subst, inl, inr, String, Bool, true, false, some, ◌==◌, ==_refl,
  arith, Option-cases, Bool-cases, if◌then◌else◌,
}
use go_keylane.Base.Dict.{lookup}
use go_keylane.HotKey.Defs.{
  HotKeyTracker, entry_at, hot_key_entry_stale, clear_entry, maybe_reset_entry, init_slot,
  see_again, touch,
}
use go_keylane.HotKey.Slots.{hash_at, AgreesBut}
use go_keylane.HotKey.Agreeing.{zero-AgreesBut, cleared-AgreesBut}
use go_keylane.HotKey.Keeping.{
  IsTable, if-IsTable, update-IsTable, init_slot-IsTable, allocate-IsTable, stale_used,
  is_zero_false, clear-IsTable,
}

module _ (n : ℕ) (t : HotKeyTracker) (i key_hash lane_id : ℕ) (raw_key : String) (now : ℕ) where
  abbrev stale : Bool
  stale = hot_key_entry_stale (entry_at t i) t.cfg.detection_window now

  -- The entry is stale: its slot is cleared, and written again.
  seen_stale-IsTable :
      lookup key_hash t.index ≡ some i
      → stale ≡ true
      → i < n
      → IsTable n t
      → IsTable n (
          let reset = clear_entry t i (entry_at t i) in
          if (entry_at reset i).key_hash == 0
          then init_slot reset i key_hash lane_id raw_key now
          else see_again reset i lane_id raw_key now)
  unfolding clear_entry see_again
  seen_stale-IsTable found s below h =
      let reset : HotKeyTracker = clear_entry t i (entry_at t i) in
      let used : hash_at t.entries i ≢ 0 = stale_used (entry_at t i) t.cfg.detection_window now s in
      let at : hash_at t.entries i ≡ key_hash = (h.agrees.placed key_hash i found).1 in
      let e = is_zero_false (hash_at t.entries i) used in
      let cleared : IsTable n reset = clear-IsTable n t i used h in
      if-IsTable n ((entry_at reset i).key_hash == 0)
        (init_slot reset i key_hash lane_id raw_key now) (see_again reset i lane_id raw_key now)
        (λ z. init_slot-IsTable n reset i key_hash lane_id raw_key now cleared.size below (
          rw (e, at)
            (cleared-AgreesBut t.entries t.index h.agrees i key_hash t.epoch found
              (λ k. used (at ∙ k)))))
        (λ z. update-IsTable n reset i _ _ (λ x. refl) cleared)

  seen_fresh-IsTable :
      lookup key_hash t.index ≡ some i
      → i < n
      → IsTable n t
      → IsTable n (
          if (entry_at t i).key_hash == 0
          then init_slot t i key_hash lane_id raw_key now
          else see_again t i lane_id raw_key now)
  unfolding see_again
  seen_fresh-IsTable found below h =
      if-IsTable n ((entry_at t i).key_hash == 0) _ _
        (λ e.
          (let z : hash_at t.entries i ≡ 0 = ground arith in
            let k : key_hash ≡ 0 = sym (h.agrees.placed key_hash i found).1 ∙ z in
            init_slot-IsTable n t i key_hash lane_id raw_key now h.size below (
              subst (λ q. AgreesBut i q t.entries t.index) (sym k)
                (zero-AgreesBut t.entries t.index h.agrees i z))))
        (λ e. update-IsTable n t i _ _ (λ x. refl) h)

  -- `touch` of a key that the index has.
  seen-IsTable :
      lookup key_hash t.index ≡ some i
      → i < n
      → IsTable n t
      → IsTable n (
          let reset = maybe_reset_entry t i now in
          if (entry_at reset i).key_hash == 0
          then init_slot reset i key_hash lane_id raw_key now
          else see_again reset i lane_id raw_key now)
  unfolding maybe_reset_entry
  seen-IsTable found below h = elim (Bool-cases stale) [
    | inl s ↦ rw s (seen_stale-IsTable found s below h)
    | inr s ↦ rw s (seen_fresh-IsTable found below h)
  ]

first_of_if :
    (n : ℕ) (b : Bool) (x y : HotKeyTracker × ℕ)
    → IsTable n (if b then x.0 else y.0)
    → IsTable n (if b then x else y).0
first_of_if n true x y h = h
first_of_if n false x y h = h

pub touch-IsTable :
    (n : ℕ) (t : HotKeyTracker) (key_hash lane_id : ℕ) (raw_key : String) (now : ℕ)
    → 0 < n
    → IsTable n t
    → IsTable n (touch t key_hash lane_id raw_key now).0
unfolding touch
touch-IsTable n t key_hash lane_id raw_key now room h =
    elim (Option-cases (lookup key_hash t.index)) [
      | inl missing ↦
          rw (missing, touch) (allocate-IsTable n t key_hash lane_id raw_key now room missing h)
      | inr (i, found) ↦
          (let p = h.agrees.placed key_hash i found in
            let at : ((entry_at t i).key_hash == key_hash) ≡ true =
              subst (λ k. ((entry_at t i).key_hash == k) ≡ true) p.1
                (==_refl (entry_at t i).key_hash) in
            let size = h.size in
            let reset : HotKeyTracker = maybe_reset_entry t i now in
            rw (found, at, touch)
              (first_of_if n ((entry_at reset i).key_hash == 0)
                (init_slot reset i key_hash lane_id raw_key now, i)
                (see_again reset i lane_id raw_key now, i)
                (seen-IsTable n t i key_hash lane_id raw_key now found (omega arith) h)))
    ]
