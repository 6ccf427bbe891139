-- ===== src/HotKey/Deciding.antt =====
-- evaluatePerKeyAdmission of internal/core/per_key_policy.go keeps the table in order.
use go_keylane.Base.{
  ℕ, zero, suc, ◌≡◌, refl, ◌∙◌, inl, inr, false, not, ◌||◌, List, [], ◌∷◌, set, length-set,
  Option-cases, Bool-cases,
}
use go_keylane.Base.Floats.{Float}
use go_keylane.HotKey.Defs.{
  MitigationAction, allow, throttle, reject, shed, HotKeyTracker, HotKeyEntry, entry_at, enabled,
  expire_stale_entries,
}
use go_keylane.HotKey.Slots.{hash_at, Agrees-same}
use go_keylane.HotKey.Keeping.{IsTable, expire_stale-IsTable}
use go_keylane.HotKey.PerKey.{
  HotKeyRatios, PerKeyAdmissionConfig, ShardLoad, Verdict, recovered, passed, mitigated,
}
use go_keylane.HotKey.Admission.{finished_entry, entry_after, slot_of, evaluate_per_key_admission}

-- An entry is put in the place of one with the same hash.
hash-set :
    (es : List HotKeyEntry) (i j : ℕ) (e : HotKeyEntry)
    → e.key_hash ≡ hash_at es i
    → hash_at (set es i e) j ≡ hash_at es j
hash-set [] i j e same = refl
hash-set (x ∷ es) zero zero e same = same
hash-set (x ∷ es) zero (suc j) e same = refl
hash-set (x ∷ es) (suc i) zero e same = refl
hash-set (x ∷ es) (suc i) (suc j) e same = hash-set es i j e same

set-IsTable :
    (n : ℕ) (t : HotKeyTracker) (i : ℕ) (e : HotKeyEntry)
    → e.key_hash ≡ hash_at t.entries i
    → IsTable n t
    → IsTable n (record t { entries = set t.entries i e })
set-IsTable n t i e same h = record {
  size = length-set t.entries i e ∙ h.size;
  agrees =
      Agrees-same t.entries (set t.entries i e) t.index (length-set t.entries i e)
        (λ j. hash-set t.entries i j e same) h.agrees;
}

module _ {ℓ} {W : Type ℓ} ⦃f : Float W⦄ where
  entry_after-hash :
      (cfg : PerKeyAdmissionConfig W) (e : HotKeyEntry) (now : ℕ) (v : Verdict)
      → (entry_after cfg e now v).key_hash ≡ e.key_hash
  unfolding entry_after finished_entry
  entry_after-hash cfg e now recovered = refl
  entry_after-hash cfg e now passed = refl
  entry_after-hash cfg e now (mitigated allow why) = refl
  entry_after-hash cfg e now (mitigated MitigationAction.unset why) = refl
  entry_after-hash cfg e now (mitigated throttle why) = refl
  entry_after-hash cfg e now (mitigated reject why) = refl
  entry_after-hash cfg e now (mitigated shed why) = refl

  pub evaluate_per_key_admission-IsTable :
      (n : ℕ) (limits : HotKeyRatios W) (cfg : PerKeyAdmissionConfig W) (load : ShardLoad W)
      (t : HotKeyTracker) (key_hash now : ℕ)
      → IsTable n t
      → IsTable n (evaluate_per_key_admission limits cfg load t key_hash now).0
  unfolding evaluate_per_key_admission
  evaluate_per_key_admission-IsTable n limits cfg load t key_hash now h =
      let live : HotKeyTracker = expire_stale_entries t now in
      let kept = expire_stale-IsTable n t now h in
      elim (Bool-cases (not (enabled t) || not cfg.enabled)) [
        | inl off ↦ rw off h
        | inr on ↦ elim (Option-cases (slot_of live key_hash)) [
          | inl e ↦ rw (on, e) kept
          | inr (i, e) ↦
              rw (on, e)
                (set-IsTable n live i _ (entry_after-hash cfg (entry_at live i) now _) kept)
        ]
      ]

  pub evaluate_per_key_admission-off :
      (limits : HotKeyRatios W) (cfg : PerKeyAdmissionConfig W) (load : ShardLoad W)
      (t : HotKeyTracker) (key_hash now : ℕ)
      → enabled t ≡ false
      → (evaluate_per_key_admission limits cfg load t key_hash now).0 ≡ t
  unfolding evaluate_per_key_admission
  evaluate_per_key_admission-off limits cfg load t key_hash now e = rw e refl
