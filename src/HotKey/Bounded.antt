-- ===== src/HotKey/Bounded.antt =====
-- Whatever internal/core/hotkey_tracker.go observes, its table stays in order and within its bound.
use go_keylane.Base.{
  ℕ, zero, suc, ◌≤◌, ◌<◌, ◌≡◌, refl, sym, ap, ◌∙◌, subst, inl, inr, String, Bool, true, false, not,
  ◌||◌, ◌⊎◌, List, [], ◌∷◌, length, replicate, length-replicate, ◌==◌, arith, Bool-cases,
}
use go_keylane.Base.Dict.{lookup, IsUnique}
use go_keylane.HotKey.Defs.{
  HotKeyConfig, HotKeyTracker, zero_entry, enabled, new_hot_key_tracker, off_tracker, active_count,
}
use go_keylane.HotKey.Observe.{
  observe_submit, observe_enqueue, observe_dequeue, observe_reject, observe_queue_wait,
  observe_inflight_start, observe_inflight_end,
}
use go_keylane.HotKey.Slots.{hash_at, Agrees, length-le}
use go_keylane.HotKey.Keeping.{IsTable, if-IsTable}
use go_keylane.HotKey.Bumping.{SameHash, touched-IsTable, fresh-IsTable, fresh_if-IsTable}
use go_keylane.Base.Floats.{Float}
use go_keylane.HotKey.PerKey.{HotKeyRatios, PerKeyAdmissionConfig, ShardLoad}
use go_keylane.HotKey.Admission.{evaluate_per_key_admission}
use go_keylane.HotKey.Deciding.{evaluate_per_key_admission-IsTable, evaluate_per_key_admission-off}

blank : (m i epoch : ℕ) → hash_at (replicate m (zero_entry epoch)) i ≡ 0
blank zero i epoch = refl
blank (suc m) zero epoch = refl
blank (suc m) (suc i) epoch = blank m i epoch

fresh-Agrees : (m epoch : ℕ) → Agrees (replicate m (zero_entry epoch)) []
unfolding IsUnique lookup
fresh-Agrees m epoch = record {
  unique = tt;
  placed = λ k i e. cc;
  listed = λ i ne. absurd (ne (blank m i epoch));
}

-- Within the bound, and with an index that agrees with the slots.
abbrev pub IsBounded : ℕ → HotKeyTracker → Type 0
IsBounded most t = (active_count t ≤ most) × Agrees t.entries t.index

table-IsBounded : (n : ℕ) (t : HotKeyTracker) → IsTable n t → IsBounded n t
unfolding active_count
table-IsBounded n t h =
    let size = h.size in
    let few =
      length-le (hash_at t.entries) (length t.entries) t.index h.agrees.unique h.agrees.placed in
    (omega arith, h.agrees)

has_slot : (on : Bool) (most : ℕ) → (not on || most == 0) ≡ false → 0 < most
has_slot true most e = ground arith
has_slot false most e = cc

-- What a tracker is told of, each at a time, and the evaluations for a key.
pub data Observation {ℓ} (W : Type ℓ) : Type ℓ where
  submitted enqueued : ℕ → ℕ → String → ℕ → Observation W
  dequeued rejected started ended : ℕ → ℕ → Observation W
  decided : HotKeyRatios W → PerKeyAdmissionConfig W → ShardLoad W → ℕ → ℕ → Observation W
  waited : ℕ → ℕ → ℕ → Observation W

module _ {ℓ} {W : Type ℓ} ⦃f : Float W⦄ where
  unfoldable pub observed : HotKeyTracker → Observation W → HotKeyTracker
  unfolding observe_submit observe_enqueue observe_dequeue observe_reject observe_queue_wait
      observe_inflight_start observe_inflight_end evaluate_per_key_admission
  observed t (submitted key_hash lane_id raw_key now) =
      observe_submit t key_hash lane_id raw_key now
  observed t (enqueued key_hash lane_id raw_key now) =
      observe_enqueue t key_hash lane_id raw_key now
  observed t (dequeued key_hash now) = observe_dequeue t key_hash now
  observed t (rejected key_hash now) = observe_reject t key_hash now
  observed t (started key_hash now) = observe_inflight_start t key_hash now
  observed t (ended key_hash now) = observe_inflight_end t key_hash now
  observed t (decided limits cfg load key_hash now) =
      (evaluate_per_key_admission limits cfg load t key_hash now).0
  observed t (waited key_hash nanos now) = observe_queue_wait t key_hash nanos now

  unfoldable pub observed_all : HotKeyTracker → List (Observation W) → HotKeyTracker
  unfolding observed
  observed_all t [] = t
  observed_all t (o ∷ os) = observed_all (observed t o) os

  module _ (n : ℕ) (t : HotKeyTracker) (room : 0 < n) (h : IsTable n t) where
    observed-IsTable : (o : Observation W) → IsTable n (observed t o)
    unfolding observed observe_submit observe_enqueue observe_dequeue observe_reject
        observe_queue_wait observe_inflight_start observe_inflight_end SameHash
    observed-IsTable (submitted key_hash lane_id raw_key now) =
        touched-IsTable n t room h key_hash lane_id raw_key now _ (λ e. refl)
    observed-IsTable (enqueued key_hash lane_id raw_key now) =
        touched-IsTable n t room h key_hash lane_id raw_key now _ (λ e. refl)
    observed-IsTable (dequeued key_hash now) =
        fresh_if-IsTable n t room h key_hash now _ (λ e. refl)
    observed-IsTable (rejected key_hash now) =
        fresh_if-IsTable n t room h key_hash now _ (λ e. refl)
    observed-IsTable (started key_hash now) = fresh_if-IsTable n t room h key_hash now _ (λ e. refl)
    observed-IsTable (ended key_hash now) = fresh_if-IsTable n t room h key_hash now _ (λ e. refl)
    observed-IsTable (waited key_hash nanos now) =
        if-IsTable n (not (enabled t) || nanos == 0) t _ (λ e. h)
          (λ e. fresh-IsTable n t room h key_hash now _ (λ e. refl))
    observed-IsTable (decided limits cfg load key_hash now) =
        evaluate_per_key_admission-IsTable n limits cfg load t key_hash now h

  observed_all-IsTable :
      (n : ℕ) (t : HotKeyTracker) (os : List (Observation W))
      → 0 < n
      → IsTable n t
      → IsTable n (observed_all t os)
  unfolding observed_all
  observed_all-IsTable n t [] room h = h
  observed_all-IsTable n t (o ∷ os) room h =
      observed_all-IsTable n (observed t o) os room (observed-IsTable n t room h o)

  -- A tracker that is switched off observes nothing.
  observed_off : (t : HotKeyTracker) (o : Observation W) → enabled t ≡ false → observed t o ≡ t
  unfolding observed observe_submit observe_enqueue observe_dequeue observe_reject
      observe_queue_wait observe_inflight_start observe_inflight_end
  observed_off t (submitted key_hash lane_id raw_key now) e = rw e refl
  observed_off t (enqueued key_hash lane_id raw_key now) e = rw e refl
  observed_off t (dequeued key_hash now) e = rw e refl
  observed_off t (rejected key_hash now) e = rw e refl
  observed_off t (started key_hash now) e = rw e refl
  observed_off t (ended key_hash now) e = rw e refl
  observed_off t (waited key_hash nanos now) e = rw e refl
  observed_off t (decided limits cfg load key_hash now) e =
      evaluate_per_key_admission-off limits cfg load t key_hash now e

  observed_all-off :
      (t : HotKeyTracker) (os : List (Observation W)) → enabled t ≡ false → observed_all t os ≡ t
  unfolding observed_all
  observed_all-off t [] e = refl
  observed_all-off t (o ∷ os) e =
      ap (λ u. observed_all u os) (observed_off t o e) ∙ observed_all-off t os e

  -- A new tracker is switched off and stays so, or its table is in order whatever it observes.
  pub reached :
      (cfg : HotKeyConfig) (os : List (Observation W))
      → (observed_all (new_hot_key_tracker cfg) os ≡ off_tracker)
        ⊎ IsTable cfg.max_tracked_keys_per_shard (observed_all (new_hot_key_tracker cfg) os)
  unfolding new_hot_key_tracker enabled
  reached cfg os =
      let most : ℕ = cfg.max_tracked_keys_per_shard in
      let off : Bool = not cfg.enabled || most == 0 in
      elim (Bool-cases off) [
        | inl e ↦ inl (rw (e, new_hot_key_tracker) (observed_all-off off_tracker os refl))
        | inr e ↦ inr (
            rw (e, new_hot_key_tracker)
              (observed_all-IsTable most _ os (has_slot cfg.enabled most e) (record {
                size = length-replicate most (zero_entry 0);
                agrees = fresh-Agrees most 0;
              })))
      ]

  -- Whatever a new tracker observes and evaluates, it has at most MaxTrackedKeysPerShard keys, each of
  -- them once and in a slot of its own that holds its hash, and it has the key of every slot that is in
  -- use.
  pub observed_all-IsBounded :
      (cfg : HotKeyConfig) (os : List (Observation W))
      → IsBounded cfg.max_tracked_keys_per_shard (observed_all (new_hot_key_tracker cfg) os)
  unfolding active_count
  observed_all-IsBounded cfg os =
      let most : ℕ = cfg.max_tracked_keys_per_shard in
      elim (reached cfg os) [
        | inl e ↦ subst (IsBounded most) (sym e) (omega arith, fresh-Agrees 0 0)
        | inr h ↦ table-IsBounded most _ h
      ]
