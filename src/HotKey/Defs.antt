-- ===== src/HotKey/Defs.antt =====
-- The table of internal/core/hotkey_tracker.go: slots, the index from a key's hash to its slot, expiry
-- and eviction. A slot whose `keyHash` is 0 is free. Times are Unix nanoseconds, from 0 on.
use go_keylane.Base.{
  ℕ, zero, suc, ◌+◌, ◌-◌, String, Bool, true, false, not, ◌&&◌, ◌||◌, Option, none, some, List, [],
  ◌∷◌, length, get_or, set, update, replicate, ltb, ◌==◌, if◌then◌else◌,
}
use go_keylane.Base.Dict.{lookup, erase, insert}
use text.Mathlib.Text.{◌==◌ as str_eq}

-- `PerKeyMitigationAction` of internal/core/per_key_policy.go; the empty string is `unset`.
pub data MitigationAction : Type 0 where
  unset allow throttle reject shed : MitigationAction

-- `PerKeyAdmissionReason` of the same file, with the empty string.
pub data AdmissionReason : Type 0 where
  unset no_reason hot_key_candidate dominant_hot_key max_queued_per_key : AdmissionReason
  max_inflight_per_key cooldown_active shard_overloaded : AdmissionReason

-- The fields that the table reads. A window of 0 is that of the source's `window <= 0`.
pub record HotKeyConfig : Type 0 where
  pub enabled : Bool
  pub max_tracked_keys_per_shard : ℕ
  pub detection_window : ℕ
  pub expose_raw_key : Bool

pub record HotKeyEntry : Type 0 where
  pub key_hash : ℕ
  pub lane_id : ℕ
  pub submitted_approx : ℕ
  pub queued_approx : ℕ
  pub rejected_approx : ℕ
  pub queue_wait_approx_nanos : ℕ
  pub last_seen : ℕ
  pub epoch : ℕ
  pub inflight_approx : ℕ
  pub last_action : MitigationAction
  pub last_reason : AdmissionReason
  pub last_decision : ℕ
  pub cooldown_until : ℕ
  pub recovery_until : ℕ

-- `hotKeyEntry{epoch: t.epoch}`
abbrev pub zero_entry : ℕ → HotKeyEntry
zero_entry epoch = record {
  key_hash = 0;
  lane_id = 0;
  submitted_approx = 0;
  queued_approx = 0;
  rejected_approx = 0;
  queue_wait_approx_nanos = 0;
  last_seen = 0;
  epoch = epoch;
  inflight_approx = 0;
  last_action = MitigationAction.unset;
  last_reason = AdmissionReason.unset;
  last_decision = 0;
  cooldown_until = 0;
  recovery_until = 0;
}

-- `has_index` is `t.index != nil`, and `raw_keys` is `none` where the slice is nil.
pub record HotKeyTracker : Type 0 where
  pub cfg : HotKeyConfig
  pub entries : List HotKeyEntry
  pub has_index : Bool
  pub index : List (ℕ × ℕ)
  pub raw_keys : Option (List String)
  pub epoch : ℕ

abbrev disabled_config : HotKeyConfig
disabled_config = record {
  enabled = false;
  max_tracked_keys_per_shard = 0;
  detection_window = 0;
  expose_raw_key = false;
}

abbrev pub off_tracker : HotKeyTracker
off_tracker = record {
  cfg = disabled_config;
  entries = [];
  has_index = false;
  index = [];
  raw_keys = none;
  epoch = 0;
}

unfoldable pub new_hot_key_tracker : HotKeyConfig → HotKeyTracker
new_hot_key_tracker cfg =
    if not cfg.enabled || cfg.max_tracked_keys_per_shard == 0 then off_tracker else record {
      cfg = cfg;
      entries = replicate cfg.max_tracked_keys_per_shard (zero_entry 0);
      has_index = true;
      index = [];
      raw_keys =
          if cfg.expose_raw_key then some (replicate cfg.max_tracked_keys_per_shard "") else none;
      epoch = 0;
    }

unfoldable pub enabled : HotKeyTracker → Bool
enabled t = t.cfg.enabled && (ltb 0 t.cfg.max_tracked_keys_per_shard && t.has_index)

-- `now.Sub(last) > window`; the difference is at most 0 where `last` is later, as `-` gives.
unfoldable pub hot_key_entry_stale : HotKeyEntry → ℕ → ℕ → Bool
hot_key_entry_stale e window now =
    if e.key_hash == 0 || (window == 0 || e.last_seen == 0)
    then false
    else ltb window (now - e.last_seen)

abbrev set_raw_key : Option (List String) → ℕ → String → Option (List String)
set_raw_key none i raw_key = none
set_raw_key (some keys) i raw_key = some (set keys i raw_key)

-- `clearEntry` of the slot `i`, whose content is `e`.
unfoldable pub clear_entry : HotKeyTracker → ℕ → HotKeyEntry → HotKeyTracker
clear_entry t i e = record t {
  entries = set t.entries i (zero_entry t.epoch);
  index = if e.key_hash == 0 then t.index else erase e.key_hash t.index;
  raw_keys = if e.key_hash == 0 then t.raw_keys else set_raw_key t.raw_keys i "";
}

abbrev pub entry_at : HotKeyTracker → ℕ → HotKeyEntry
entry_at t i = get_or t.entries i (zero_entry 0)

unfoldable pub maybe_reset_entry : HotKeyTracker → ℕ → ℕ → HotKeyTracker
unfolding clear_entry hot_key_entry_stale
maybe_reset_entry t i now =
    if hot_key_entry_stale (entry_at t i) t.cfg.detection_window now
    then clear_entry t i (entry_at t i)
    else t

-- The slot of a fresh entry for the key; a stale one is cleared, and its slot returned all the same.
unfoldable pub entry_if_fresh : HotKeyTracker → ℕ → ℕ → HotKeyTracker × Option ℕ
unfolding maybe_reset_entry
entry_if_fresh t key_hash now = elim (lookup key_hash t.index) [
  | none ↦ (t, none)
  | some i ↦
      if (entry_at t i).key_hash == key_hash then (maybe_reset_entry t i now, some i) else (t, none)
]

-- The loop of `expireStaleEntriesLocked` over `n` slots from `i` on.
unfoldable pub expire_from : HotKeyTracker → ℕ → ℕ → ℕ → HotKeyTracker
unfolding maybe_reset_entry
expire_from t now i zero = t
expire_from t now i (suc n) = expire_from (maybe_reset_entry t i now) now (i + 1) n

unfoldable pub expire_stale_entries : HotKeyTracker → ℕ → HotKeyTracker
unfolding expire_from
expire_stale_entries t now =
    if t.cfg.detection_window == 0 then t else expire_from t now 0 (length t.entries)

-- `for h, idx := range t.index { if idx == i { delete(t.index, h) } }`
unfoldable pub erase_slot : ℕ → List (ℕ × ℕ) → List (ℕ × ℕ)
erase_slot i [] = []
erase_slot i ((h, j) ∷ m) = let rest = erase_slot i m in if j == i then rest else (h, j) ∷ rest

unfoldable pub remove_slot_from_index : HotKeyTracker → ℕ → HotKeyTracker
unfolding erase_slot
remove_slot_from_index t i = record t {
  index =
      if (entry_at t i).key_hash == 0
      then erase_slot i t.index
      else erase (entry_at t i).key_hash t.index;
}

unfoldable pub init_slot : HotKeyTracker → ℕ → ℕ → ℕ → String → ℕ → HotKeyTracker
init_slot t i key_hash lane_id raw_key now = record t {
  entries =
      set t.entries i
        (record (zero_entry t.epoch) { key_hash = key_hash; lane_id = lane_id; last_seen = now });
  index = insert key_hash i t.index;
  raw_keys = if str_eq raw_key "" then t.raw_keys else set_raw_key t.raw_keys i raw_key;
}

-- The first free slot from `i` on.
unfoldable pub free_slot : List HotKeyEntry → ℕ → Option ℕ
free_slot [] i = none
free_slot (e ∷ es) i = let rest = free_slot es (i + 1) in if e.key_hash == 0 then some i else rest

-- The scan for the slot that was seen least recently: the first of the smallest `lastSeen`.
unfoldable pub evict_from : List HotKeyEntry → ℕ → ℕ → ℕ → ℕ
evict_from [] i evict seen = evict
evict_from (e ∷ es) i evict seen =
    evict_from es (i + 1) (if ltb e.last_seen seen then i else evict)
      (if ltb e.last_seen seen then e.last_seen else seen)

unfoldable pub slot_for : List HotKeyEntry → ℕ
unfolding free_slot evict_from
slot_for es = elim (free_slot es 0) [
  | some i ↦ i
  | none ↦ elim es [ [] ↦ 0 | e ∷ rest ↦ evict_from rest 1 0 e.last_seen ]
]

unfoldable pub allocate_slot : HotKeyTracker → ℕ → ℕ → String → ℕ → HotKeyTracker × ℕ
unfolding slot_for remove_slot_from_index init_slot
allocate_slot t key_hash lane_id raw_key now =
    let i = slot_for t.entries in
    (init_slot (remove_slot_from_index t i) i key_hash lane_id raw_key now, i)

-- The last branch of `touch` for a key in the index: a fresh entry is seen again.
unfoldable pub see_again : HotKeyTracker → ℕ → ℕ → String → ℕ → HotKeyTracker
see_again t i lane_id raw_key now = record t {
  entries = update t.entries i (λ e. record e { lane_id = lane_id; last_seen = now });
  raw_keys =
      if t.cfg.expose_raw_key && not (str_eq raw_key "")
      then set_raw_key t.raw_keys i raw_key
      else t.raw_keys;
}

-- The tracker after `touch`, and the slot that its result points into.
unfoldable pub touch : HotKeyTracker → ℕ → ℕ → String → ℕ → HotKeyTracker × ℕ
unfolding allocate_slot see_again maybe_reset_entry
touch t key_hash lane_id raw_key now = elim (lookup key_hash t.index) [
  | none ↦ allocate_slot t key_hash lane_id raw_key now
  | some i ↦
      let reset = maybe_reset_entry t i now in
      if (entry_at t i).key_hash == key_hash
      then if (entry_at reset i).key_hash == 0
        then (init_slot reset i key_hash lane_id raw_key now, i)
        else (see_again reset i lane_id raw_key now, i)
      else allocate_slot (record t { index = erase key_hash t.index }) key_hash lane_id raw_key now
]

unfoldable pub active_count : HotKeyTracker → ℕ
active_count t = length t.index
