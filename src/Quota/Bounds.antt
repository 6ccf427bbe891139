-- ===== src/Quota/Bounds.antt =====
-- Every snapshot that buildQuotaPolicySnapshot of internal/core/quota_policy.go accepts has a quota for
-- each lane, within the bounds.
use go_keylane.Base.{
  subst, ℕ, zero, suc, ◌+◌, ◌≡◌, ◌≤◌, inl, inr, refl, ap, String, Bool, true, false, not, Option,
  some, List, [], ◌∷◌, Result, ok, err, ◌>>◌, require, length, ltb, All, Bool-cases, Option-cases,
  arith, if◌then◌else◌,
}
use text.Mathlib.Text.{◌==◌ as str_eq}
use go_keylane.Errors.{
  Error, invalid_lane_quota, quota_too_large, invalid_lane, invalid_quota_policy,
}
use go_keylane.Registry.{LaneRegistry, find, lookup_lane, name_of, lane_count}
use go_keylane.Quota.Defs.{
  QuotaPolicySnapshot, QuotaPolicyInput, max_lane_quota, tabulate, check_lane_quotas, quota_for,
  build_quota_policy_snapshot, is_some,
}

abbrev pub InBounds : ℕ → Type 0
InBounds quota = (1 ≤ quota) × (quota ≤ max_lane_quota)

-- A guard passes where the whole call returns a value.
pub require_ok {κ} :
    {A : Type κ} (b : Bool) (e : Error) (m : Result Error A) {a : A}
    → (require b e >> m) ≡ ok a
    → (b ≡ true) × (m ≡ ok a)
require_ok true e m h = (refl, h)
require_ok false e m h = cc

pub then_ok {κ} :
    {A : Type κ} (l : Result Error (Unit {0})) (m : Result Error A) {a : A}
    → (l >> m) ≡ ok a
    → (l ≡ ok tt) × (m ≡ ok a)
then_ok (ok tt) m h = (refl, h)
then_ok (err e) m h = cc

ok-injective :
    {s t : QuotaPolicySnapshot} → ◌≡◌ {A = Result Error QuotaPolicySnapshot} (ok s) (ok t) → s ≡ t
ok-injective c = cc

-- The two ways a lookup answers.
taken_branch :
    (b : Bool) (n : ℕ) (m : Option ℕ) {q : ℕ}
    → (if b then some n else m) ≡ some q
    → b ≡ true
    → n ≡ q
taken_branch true n m h e = cc
taken_branch false n m h e = cc

skipped_branch :
    (b : Bool) (n : ℕ) (m : Option ℕ) {q : ℕ}
    → (if b then some n else m) ≡ some q
    → b ≡ false
    → m ≡ some q
skipped_branch true n m h e = cc
skipped_branch false n m h e = h

below_bound :
    (low high n : ℕ) → not (ltb n low) ≡ true → not (ltb high n) ≡ true → (low ≤ n) × (n ≤ high)
below_bound low high n h k =
    let a : low ≤ n = ground arith in let b : n ≤ high = ground arith in (a, b)

check-InBounds :
    (reg : LaneRegistry) (lanes : List (String × ℕ)) (name : String) (quota : ℕ)
    → check_lane_quotas reg lanes ≡ ok tt
    → find name lanes ≡ some quota
    → InBounds quota
unfolding check_lane_quotas find
check-InBounds reg [] name quota c f = cc
check-InBounds reg ((lane, n) ∷ rest) name quota c f =
    let (a, c₁) = require_ok (not (str_eq lane "")) invalid_lane _ c in
    let (b, c₂) = require_ok (is_some (lookup_lane reg lane)) invalid_quota_policy _ c₁ in
    let (low, c₃) = require_ok (not (ltb n 1)) invalid_lane_quota _ c₂ in
    let (high, c₄) =
      require_ok (not (ltb max_lane_quota n)) quota_too_large (check_lane_quotas reg rest) c₃ in
    elim (Bool-cases (str_eq lane name)) [
      | inl e ↦
          let same : n ≡ quota = taken_branch (str_eq lane name) n _ f e in
          subst InBounds same (below_bound 1 max_lane_quota n low high)
      | inr e ↦ check-InBounds reg rest name quota c₄ (skipped_branch (str_eq lane name) n _ f e)
    ]

pub tabulate-All {κ μ} :
    {A : Type κ} (P : A → Type μ) (f : ℕ → A) (i n : ℕ)
    → ((j : ℕ) → P (f j))
    → All P (tabulate f i n)
unfolding tabulate
tabulate-All P f i zero all = tt
tabulate-All P f i (suc n) all = (all i, tabulate-All P f (i + 1) n all)

pub length-tabulate {κ} : {A : Type κ} (f : ℕ → A) (i n : ℕ) → length (tabulate f i n) ≡ n
unfolding tabulate
length-tabulate f i zero = refl
length-tabulate f i (suc n) = ap suc (length-tabulate f (i + 1) n)

quota_for-InBounds :
    (reg : LaneRegistry) (policy : QuotaPolicyInput) (i : ℕ)
    → InBounds policy.default_quota
    → check_lane_quotas reg policy.lane_quotas ≡ ok tt
    → InBounds (quota_for reg policy i)
unfolding quota_for
quota_for-InBounds reg policy i low c =
    elim (Option-cases (find (name_of reg i) policy.lane_quotas)) [
      | inl e ↦ subst InBounds (rw (e, quota_for) refl) low
      | inr (q, e) ↦
          subst InBounds (rw (e, quota_for) refl)
            (check-InBounds reg policy.lane_quotas (name_of reg i) q c e)
    ]

-- A policy that buildQuotaPolicySnapshot accepts gives a snapshot of version 0 with one quota for each
-- lane of the registry, and the default quota and every lane's quota are from 1 to 1024.
pub build_quota_policy_snapshot-InBounds :
    (reg : LaneRegistry) (policy : QuotaPolicyInput) {snap : QuotaPolicySnapshot}
    → build_quota_policy_snapshot reg policy ≡ ok snap
    → (snap.version ≡ 0)
      × (length snap.lane_quotas ≡ lane_count reg)
      × InBounds snap.default_quota
      × All InBounds snap.lane_quotas
unfolding build_quota_policy_snapshot
build_quota_policy_snapshot-InBounds reg policy {snap} c =
    let (low, c₁) = require_ok (not (ltb policy.default_quota 1)) invalid_lane_quota _ c in
    let (high, c₂) =
      require_ok (not (ltb max_lane_quota policy.default_quota)) quota_too_large _ c₁ in
    let (each, c₃) = then_ok (check_lane_quotas reg policy.lane_quotas) _ c₂ in
    let default_ok : InBounds policy.default_quota =
      below_bound 1 max_lane_quota policy.default_quota low high in
    subst
      (λ s.
        (s.version ≡ 0)
        × (length s.lane_quotas ≡ lane_count reg)
        × InBounds s.default_quota
        × All InBounds s.lane_quotas)
      (ok-injective c₃)
      (
        refl,
        length-tabulate (quota_for reg policy) 0 (lane_count reg),
        default_ok,
        tabulate-All InBounds (quota_for reg policy) 0 (lane_count reg)
            (λ i. quota_for-InBounds reg policy i default_ok each),
      )
