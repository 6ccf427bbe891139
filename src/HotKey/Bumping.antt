-- ===== src/HotKey/Bumping.antt =====
-- A change of one entry by an observation of internal/core/hotkey_tracker.go keeps the table in order.
use go_keylane.Base.{
  ℕ, ◌<◌, ◌≡◌, inl, inr, String, Bool, true, false, Option, none, some, ◌==◌, Option-cases,
  if◌then◌else◌,
}
use go_keylane.Base.Dict.{lookup}
use go_keylane.HotKey.Defs.{
  HotKeyTracker, HotKeyEntry, entry_at, maybe_reset_entry, entry_if_fresh, expire_stale_entries,
  touch, enabled,
}
use go_keylane.HotKey.Observe.{bump, bump_fresh}
use go_keylane.HotKey.Keeping.{
  IsTable, if-IsTable, update-IsTable, maybe_reset-IsTable, expire_stale-IsTable,
}
use go_keylane.HotKey.Touching.{touch-IsTable}

unfoldable pub SameHash : (HotKeyEntry → HotKeyEntry) → Type 0
SameHash f = (e : HotKeyEntry) → (f e).key_hash ≡ e.key_hash

bump-IsTable :
    (n : ℕ) (p : HotKeyTracker × ℕ) (f : HotKeyEntry → HotKeyEntry)
    → SameHash f
    → IsTable n p.0
    → IsTable n (bump p f)
unfolding SameHash
bump-IsTable n (t, i) f same h = update-IsTable n t i f t.raw_keys same h

bump_fresh-IsTable :
    (n : ℕ) (p : HotKeyTracker × Option ℕ) (f : HotKeyEntry → HotKeyEntry)
    → SameHash f
    → IsTable n p.0
    → IsTable n (bump_fresh p f)
unfolding SameHash
bump_fresh-IsTable n (t, none) f same h = h
bump_fresh-IsTable n (t, some i) f same h = update-IsTable n t i f t.raw_keys same h

first_of_if :
    (n : ℕ) (b : Bool) (x y : HotKeyTracker × Option ℕ)
    → IsTable n x.0
    → IsTable n y.0
    → IsTable n (if b then x else y).0
first_of_if n true x y h k = h
first_of_if n false x y h k = k

entry_if_fresh-IsTable :
    (n : ℕ) (t : HotKeyTracker) (key_hash now : ℕ)
    → IsTable n t
    → IsTable n (entry_if_fresh t key_hash now).0
unfolding entry_if_fresh
entry_if_fresh-IsTable n t key_hash now h = elim (Option-cases (lookup key_hash t.index)) [
  | inl e ↦ rw (e, entry_if_fresh) h
  | inr (i, e) ↦
      rw (e, entry_if_fresh)
        (first_of_if n ((entry_at t i).key_hash == key_hash) (maybe_reset_entry t i now, some i)
          (t, none) (maybe_reset-IsTable n t i now h) h)
]

module _ (n : ℕ) (t : HotKeyTracker) (room : 0 < n) (h : IsTable n t) where
  pub touched-IsTable :
      (key_hash lane_id : ℕ) (raw_key : String) (now : ℕ) (f : HotKeyEntry → HotKeyEntry)
      → SameHash f
      → IsTable n (
          if enabled t
          then bump (touch (expire_stale_entries t now) key_hash lane_id raw_key now) f
          else t)
  touched-IsTable key_hash lane_id raw_key now f same =
      let seen : HotKeyTracker × ℕ =
        touch (expire_stale_entries t now) key_hash lane_id raw_key now in
      if-IsTable n (enabled t) (bump seen f) t
        (λ on. bump-IsTable n seen f same (
          touch-IsTable n (expire_stale_entries t now) key_hash lane_id raw_key now room
            (expire_stale-IsTable n t now h)))
        (λ off. h)

  pub fresh-IsTable :
      (key_hash now : ℕ) (f : HotKeyEntry → HotKeyEntry)
      → SameHash f
      → IsTable n (bump_fresh (entry_if_fresh t key_hash now) f)
  fresh-IsTable key_hash now f same =
      bump_fresh-IsTable n (entry_if_fresh t key_hash now) f same
        (entry_if_fresh-IsTable n t key_hash now h)

  pub fresh_if-IsTable :
      (key_hash now : ℕ) (f : HotKeyEntry → HotKeyEntry)
      → SameHash f
      → IsTable n (if enabled t then bump_fresh (entry_if_fresh t key_hash now) f else t)
  fresh_if-IsTable key_hash now f same =
      if-IsTable n (enabled t) (bump_fresh (entry_if_fresh t key_hash now) f) t
        (λ on. fresh-IsTable key_hash now f same) (λ off. h)
