-- ===== src/Scheduler/Versions.antt =====
-- The compare-and-publish of UpdateQuotaPolicyIfVersion in internal/core/quota_policy.go.
use go_keylane.Base.{
  subst, ◌^◌, ℕ, ◌+◌, ◌≡◌, ◌<◌, inl, inr, refl, Result, ok, err, ◌==◌, ==→eq, Bool-cases,
  Result-cases, arith,
}
use go_keylane.Errors.{Error}
use go_keylane.Counters.{u64}
use go_keylane.Quota.{QuotaPolicyInput, build_quota_policy_snapshot}
use go_keylane.Scheduler.State.{Scheduler}
use go_keylane.Scheduler.Policy.{is_stopping, publish_quota_policy, update_quota_policy_if_version}

-- A successful update: the version it found, the one it returns, and the one that is now active.
record Published (s t : Scheduler) (expected v : ℕ) : Type 0 where
  found : s.quota_policy.version ≡ expected
  answer : v ≡ u64 (s.quota_version + 1)
  active : t.quota_policy.version ≡ v
  counter : t.quota_version ≡ v

PublishedIfOk : (s : Scheduler) (expected : ℕ) → Scheduler × Result Error ℕ → Type 0
PublishedIfOk s expected (t, err e) = Unit
PublishedIfOk s expected (t, ok v) = Published s t expected v

if_ok :
    (s : Scheduler) (expected : ℕ) (r : Scheduler × Result Error ℕ) {v : ℕ}
    → PublishedIfOk s expected r
    → r.1 ≡ ok v
    → Published s r.0 expected v
unfolding PublishedIfOk
if_ok s expected (t, err e) p h = cc
if_ok s expected (t, ok w) {v} p h = let same : w ≡ v = cc in subst (Published s t expected) same p

update-Published :
    (s : Scheduler) (policy : QuotaPolicyInput) (expected : ℕ)
    → PublishedIfOk s expected (update_quota_policy_if_version s policy expected)
unfolding update_quota_policy_if_version publish_quota_policy PublishedIfOk
update-Published s policy expected =
    elim (Result-cases (build_quota_policy_snapshot s.lane_reg policy)) [
      | inr (e, f) ↦ rw (f, update_quota_policy_if_version) tt
      | inl (snap, f) ↦ elim (Bool-cases (is_stopping s.state)) [
        | inl g ↦ rw (f, g, update_quota_policy_if_version) tt
        | inr g ↦ elim (Bool-cases (s.quota_policy.version == expected)) [
          | inl h ↦
              rw (f, g, h, update_quota_policy_if_version)
                (record {
                  found = ==→eq s.quota_policy.version expected h;
                  answer = refl;
                  active = refl;
                  counter = refl;
                })
          | inr h ↦ rw (f, g, h, update_quota_policy_if_version) tt
        ]
      ]
    ]

-- While the version counter is below 2 ^ 64 - 1 and agrees with the active snapshot, an update that
-- succeeds at an expected version returns the next version, the active snapshot has it, and no second
-- update that expects the same version succeeds: of two updates that read one version, one wins.
pub one_update_wins :
    (s : Scheduler) (policy other : QuotaPolicyInput) (expected : ℕ) {v : ℕ}
    → s.quota_policy.version ≡ s.quota_version
    → s.quota_version + 1 < 2 ^ 64
    → (update_quota_policy_if_version s policy expected).1 ≡ ok v
    → let t = (update_quota_policy_if_version s policy expected).0 in
      (v ≡ expected + 1)
      × (t.quota_policy.version ≡ v)
      × (t.quota_version ≡ v)
      × ((w : ℕ) → ¬ ((update_quota_policy_if_version t other expected).1 ≡ ok w))
one_update_wins s policy other expected {v} agree room h =
    let t = (update_quota_policy_if_version s policy expected).0 in
    let p = if_ok s expected _ (update-Published s policy expected) h in
    let next : v ≡ expected + 1 = omega (arith, p.answer, p.found, agree, room) in
    let twice = update-Published t other expected in
    (
      next,
      p.active,
      p.counter,
      λ w k.
          (let q = if_ok t expected (update_quota_policy_if_version t other expected) twice k in
            omega (arith, q.found, p.active, next)),
    )
