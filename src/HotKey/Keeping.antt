-- ===== src/HotKey/Keeping.antt =====
-- Every operation of internal/core/hotkey_tracker.go keeps the index and the slots in agreement.
use go_keylane.Base.{
  ℕ, zero, suc, ◌+◌, ◌<◌, ◌≡◌, ◌≢◌, refl, ◌∙◌, String, Bool, true, false, Option, none, List, [],
  ◌∷◌, length, update, length-set, length-update, ◌==◌, arith, ℕ_discrete, if◌then◌else◌,
}
use go_keylane.Base.Dict.{lookup}
use go_keylane.HotKey.Defs.{
  HotKeyTracker, HotKeyEntry, zero_entry, entry_at, hot_key_entry_stale, clear_entry,
  maybe_reset_entry, expire_from, expire_stale_entries, remove_slot_from_index, init_slot, slot_for,
  allocate_slot,
}
use go_keylane.HotKey.Slots.{hash_at, Agrees, AgreesBut, Agrees-same}
use go_keylane.HotKey.Agreeing.{clear-Agrees, used-AgreesBut, init-Agrees}
use go_keylane.HotKey.Choosing.{free-AgreesBut, slot_for-lt}

-- A table of `n` slots whose index agrees with them.
pub record IsTable (n : ℕ) (t : HotKeyTracker) : Type 0 where
  pub size : length t.entries ≡ n
  pub agrees : Agrees t.entries t.index

hash-update :
    (es : List HotKeyEntry) (i j : ℕ) (f : HotKeyEntry → HotKeyEntry)
    → ((e : HotKeyEntry) → (f e).key_hash ≡ e.key_hash)
    → hash_at (update es i f) j ≡ hash_at es j
hash-update [] i j f same = refl
hash-update (e ∷ es) zero zero f same = same e
hash-update (e ∷ es) zero (suc j) f same = refl
hash-update (e ∷ es) (suc i) zero f same = refl
hash-update (e ∷ es) (suc i) (suc j) f same = hash-update es i j f same

-- A change of one entry that leaves its hash alone.
pub update-IsTable :
    (n : ℕ) (t : HotKeyTracker) (i : ℕ) (f : HotKeyEntry → HotKeyEntry) (raw : Option (List String))
    → ((e : HotKeyEntry) → (f e).key_hash ≡ e.key_hash)
    → IsTable n t
    → IsTable n (record t { entries = update t.entries i f; raw_keys = raw })
update-IsTable n t i f raw same h = record {
  size = length-update t.entries i f ∙ h.size;
  agrees =
      Agrees-same t.entries (update t.entries i f) t.index (length-update t.entries i f)
        (λ j. hash-update t.entries i j f same) h.agrees;
}

pub stale_used :
    (e : HotKeyEntry) (window now : ℕ) → hot_key_entry_stale e window now ≡ true → e.key_hash ≢ 0
unfolding hot_key_entry_stale
stale_used e window now s z = ground arith

pub is_zero_false : (a : ℕ) → a ≢ 0 → (a == 0) ≡ false
is_zero_false a ne = ground arith

pub clear-IsTable :
    (n : ℕ) (t : HotKeyTracker) (i : ℕ)
    → hash_at t.entries i ≢ 0
    → IsTable n t
    → IsTable n (clear_entry t i (entry_at t i))
unfolding clear_entry
clear-IsTable n t i used h =
    let e = is_zero_false (hash_at t.entries i) used in
    record {
      size = length-set t.entries i (zero_entry t.epoch) ∙ h.size;
      agrees = rw e (clear-Agrees t.entries t.index h.agrees i t.epoch used);
    }

pub if-IsTable :
    (n : ℕ) (b : Bool) (t u : HotKeyTracker)
    → (b ≡ true → IsTable n t)
    → (b ≡ false → IsTable n u)
    → IsTable n (if b then t else u)
if-IsTable n true t u p q = p refl
if-IsTable n false t u p q = q refl

pub maybe_reset-IsTable :
    (n : ℕ) (t : HotKeyTracker) (i now : ℕ) → IsTable n t → IsTable n (maybe_reset_entry t i now)
unfolding maybe_reset_entry
maybe_reset-IsTable n t i now h =
    let stale : Bool = hot_key_entry_stale (entry_at t i) t.cfg.detection_window now in
    if-IsTable n stale (clear_entry t i (entry_at t i)) t
      (λ s. clear-IsTable n t i (stale_used (entry_at t i) t.cfg.detection_window now s) h) (λ s. h)

expire_from-IsTable :
    (n : ℕ) (t : HotKeyTracker) (now i m : ℕ) → IsTable n t → IsTable n (expire_from t now i m)
unfolding expire_from
expire_from-IsTable n t now i zero h = h
expire_from-IsTable n t now i (suc m) h =
    expire_from-IsTable n (maybe_reset_entry t i now) now (i + 1) m
      (maybe_reset-IsTable n t i now h)

pub expire_stale-IsTable :
    (n : ℕ) (t : HotKeyTracker) (now : ℕ) → IsTable n t → IsTable n (expire_stale_entries t now)
unfolding expire_stale_entries
expire_stale-IsTable n t now h =
    if-IsTable n (t.cfg.detection_window == 0) t (expire_from t now 0 (length t.entries)) (λ e. h)
      (λ e. expire_from-IsTable n t now 0 (length t.entries) h)

pub init_slot-IsTable :
    (n : ℕ) (t : HotKeyTracker) (i key_hash lane_id : ℕ) (raw_key : String) (now : ℕ)
    → length t.entries ≡ n
    → i < n
    → AgreesBut i key_hash t.entries t.index
    → IsTable n (init_slot t i key_hash lane_id raw_key now)
unfolding init_slot
init_slot-IsTable n t i key_hash lane_id raw_key now size below b =
    let e : HotKeyEntry = record (zero_entry t.epoch) {
      key_hash = key_hash;
      lane_id = lane_id;
      last_seen = now;
    } in
    record {
      size = length-set t.entries i e ∙ size;
      agrees = init-Agrees t.entries t.index i key_hash e b (omega arith) refl;
    }

remove_slot-AgreesBut :
    (t : HotKeyTracker) (i key_hash : ℕ)
    → Agrees t.entries t.index
    → lookup key_hash t.index ≡ none
    → AgreesBut i key_hash t.entries (remove_slot_from_index t i).index
unfolding remove_slot_from_index
remove_slot-AgreesBut t i key_hash a missing = elim (ℕ_discrete (hash_at t.entries i) 0) [
  | yes z ↦
      (let e : (hash_at t.entries i == 0) ≡ true = ground arith in
        rw e (free-AgreesBut t.entries t.index i key_hash a z missing))
  | no used ↦
      (let e = is_zero_false (hash_at t.entries i) used in
        rw e (used-AgreesBut t.entries t.index a i key_hash used missing))
]

pub allocate-IsTable :
    (n : ℕ) (t : HotKeyTracker) (key_hash lane_id : ℕ) (raw_key : String) (now : ℕ)
    → 0 < n
    → lookup key_hash t.index ≡ none
    → IsTable n t
    → IsTable n (allocate_slot t key_hash lane_id raw_key now).0
unfolding allocate_slot remove_slot_from_index
allocate-IsTable n t key_hash lane_id raw_key now room missing h =
    let i : ℕ = slot_for t.entries in
    let size = h.size in
    let below = slot_for-lt t.entries (omega arith) in
    init_slot-IsTable n (remove_slot_from_index t i) i key_hash lane_id raw_key now size
      (omega arith) (remove_slot-AgreesBut t i key_hash h.agrees missing)
