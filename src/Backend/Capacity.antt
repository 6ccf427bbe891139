-- ===== src/Backend/Capacity.antt =====
-- The in-flight count of a lane in backend_coordinator.go is the number of its open leases, and it
-- does not pass the lane's limit.
use go_keylane.Base.{
  subst, ℕ, suc, zero, ◌+◌, ◌-◌, ◌≡◌, ◌≤◌, ◌<◌, ◌⊎◌, inl, inr, refl, sym, ap, ◌∙◌, String, Bool,
  true, false, ◌&&◌, Option, none, some, List, [], ◌∷◌, get_elem?, update, if◌then◌else◌,
  Bool-cases, Option-cases, arith,
}
use text.Mathlib.Text.{◌==◌ as str_eq}
use go_keylane.Registry.{find}
use go_keylane.Backend.Defs.{
  Coordinator, LanePolicy, LaneState, Context, BackendOperation, new_lanes, new_resources,
  new_coordinator, with_lane, acquire, release_lane,
}
use go_keylane.Backend.Holding.{
  Held, Holding, after_acquire, release, Calls, done, acquired, released, none_held, lane_at,
  open_leases,
}
use go_keylane.Backend.Counting.{str_eq→≡, on_some, lane_at-with_other, lane_at-with_same}
use go_keylane.Backend.Acquiring.{acquire-Acquires}

-- What holds of a lane and its open leases.
abbrev pub IsWithin : LaneState → ℕ → Type 0
IsWithin ls n = (ls.inflight ≡ n) × (ls.inflight ≤ ls.policy.max_in_flight)

pub record IsHeld (h : Holding) : Type 0 where
  pub within :
      (resource lane : String) (ls : LaneState)
      → lane_at h.coord resource lane ≡ some ls
      → IsWithin ls (open_leases resource lane h.leases)

on_some_cases :
    (f : LaneState → LaneState) (o : Option LaneState) (ls : LaneState)
    → on_some f o ≡ some ls
    → (old : LaneState) × (o ≡ some old) × (ls ≡ f old)
on_some_cases f none ls e = cc
on_some_cases f (some old) ls e = (old, refl, cc)

-- A lane after a change of one lane: that lane, changed, or another.
with_lane_cases :
    (c : Coordinator) (resource lane r l : String) (f : LaneState → LaneState) (ls : LaneState)
    → lane_at (with_lane resource lane f c) r l ≡ some ls
    → (((str_eq resource r && str_eq lane l) ≡ true)
        × ((old : LaneState) × (lane_at c resource lane ≡ some old)
            × (lane_at c r l ≡ some old)
            × (ls ≡ f old)))
      ⊎ (((str_eq resource r && str_eq lane l) ≡ false) × (lane_at c r l ≡ some ls))
with_lane_cases c resource lane r l f ls e =
    elim (Bool-cases (str_eq resource r && str_eq lane l)) [
      | inl b ↦
          let p : resource ≡ r = str_eq→≡ resource r (ground (arith, b)) in
          let q : lane ≡ l = str_eq→≡ lane l (ground (arith, b)) in
          let e' : lane_at (with_lane resource lane f c) resource lane ≡ some ls =
            subst (λ x. lane_at (with_lane resource lane f c) x lane ≡ some ls) (sym p)
              (subst (λ y. lane_at (with_lane resource lane f c) r y ≡ some ls) (sym q) e) in
          let (old, found, changed) =
            on_some_cases f (lane_at c resource lane) ls
              (sym (lane_at-with_same c resource lane f) ∙ e') in
          inl (b, (old, found, rw (sym p, sym q) found, changed))
      | inr b ↦ inr (b, sym (lane_at-with_other c resource lane r l f b) ∙ e)
    ]

-- The lease that an acquisition adds.
abbrev fresh : String → String → Held
fresh resource lane = record { resource = resource; lane = lane; done = false }

grant-IsHeld :
    (h : Holding) (resource lane : String) (ls : LaneState)
    → IsHeld h
    → lane_at h.coord resource lane ≡ some ls
    → ls.inflight < ls.policy.max_in_flight
    → IsHeld (record {
      coord = with_lane resource lane (λ l. record l { inflight = l.inflight + 1 }) h.coord;
      leases = fresh resource lane ∷ h.leases;
    })
unfolding open_leases
grant-IsHeld h resource lane ls v found room = record {
  within = λ r l new e.
      elim (with_lane_cases h.coord resource lane r l (λ l. record l { inflight = l.inflight + 1 })
        new e) [
          | inl (b, (old, was, here, changed)) ↦
              let same : old ≡ ls = cc in
              let w = v.within r l old here in
              let count = ap (λ (x : LaneState). x.inflight) changed in
              let limit = ap (λ (x : LaneState). x.policy.max_in_flight) changed in
              let now = ap (λ (x : LaneState). x.inflight) same in
              let most = ap (λ (x : LaneState). x.policy.max_in_flight) same in
              rw b (omega (arith, w.0, count), omega (arith, room, count, limit, now, most))
          | inr (b, was) ↦ let w = v.within r l new was in rw b (omega (arith, w.0), w.1)
        ];
}

-- Marking an open lease as released takes it out of the count of its lane.
open_leases-done :
    (r l : String) (leases : List Held) (k : ℕ) (x : Held)
    → get_elem? leases k ≡ some x
    → x.done ≡ false
    → open_leases r l leases
      ≡ (if str_eq x.resource r && str_eq x.lane l then 1 else 0)
        + open_leases r l (update leases k (λ y. record y { done = true }))
unfolding open_leases
open_leases-done r l [] k x e d = cc
open_leases-done r l (y ∷ ys) zero x e d = let same : y ≡ x = cc in rw same (ground (arith, d))
open_leases-done r l (y ∷ ys) (suc k) x e d = omega (arith, open_leases-done r l ys k x e d)

release-IsHeld : (h : Holding) (k : ℕ) → IsHeld h → IsHeld (release h k)
unfolding release release_lane
release-IsHeld h k v = elim (Option-cases (get_elem? h.leases k)) [
  | inl e ↦ rw (e, release) v
  | inr (x, e) ↦ elim (Bool-cases x.done) [
    | inl d ↦ rw (e, d, release) v
    | inr d ↦
        rw (e, d, release)
          (record {
            within = λ r l new f.
                let fewer = open_leases-done r l h.leases k x e d in
                elim (with_lane_cases h.coord x.resource x.lane r l
                  (λ y. record y { inflight = y.inflight - 1 }) new f) [
                    | inl (b, (old, was, here, changed)) ↦
                        let w = v.within r l old here in
                        let count = ap (λ (y : LaneState). y.inflight) changed in
                        let limit = ap (λ (y : LaneState). y.policy.max_in_flight) changed in
                        let one = rw b at fewer in
                        (omega (arith, w.0, count, one), omega (arith, w.1, count, limit))
                    | inr (b, was) ↦
                        let w = v.within r l new was in
                        let none_less = rw b at fewer in (omega (arith, w.0, none_less), w.1)
                  ];
          })
  ]
]

acquire-IsHeld :
    (contains : String → String → Bool) (h : Holding) (ctx : Context) (op : BackendOperation)
    → IsHeld h
    → IsHeld (after_acquire h (acquire contains h.coord ctx op))
acquire-IsHeld contains h ctx op v = elim (acquire-Acquires contains h ctx op) [
  | inl same ↦ subst IsHeld (sym same) v
  | inr (ls, decision, found, room, e) ↦
      subst (λ r. IsHeld (after_acquire h r)) (sym e)
        (grant-IsHeld h op.resource op.lane ls v found room)
]

some_eq {κ} : {A : Type κ} (a b : A) → some a ≡ some b → a ≡ b
some_eq a b e = cc

-- Nothing is in flight in a new coordinator.
new_lanes-inflight :
    (lane : String) (policies : List (String × LanePolicy)) (ls : LaneState)
    → find lane (new_lanes policies) ≡ some ls
    → ls.inflight ≡ 0
unfolding find
new_lanes-inflight lane [] ls e = cc
new_lanes-inflight lane ((j, policy) ∷ rest) ls e = elim (Bool-cases (str_eq j lane)) [
  | inl c ↦ sym (ap (λ (s : LaneState). s.inflight) (some_eq _ ls (rw c at e)))
  | inr c ↦ new_lanes-inflight lane rest ls (rw c at e)
]

new_resources_lanes :
    (resource : String) (resources : List (String × List (String × LanePolicy)))
    (lanes : List (String × LaneState))
    → find resource (new_resources resources) ≡ some lanes
    → (policies : List (String × LanePolicy)) × (lanes ≡ new_lanes policies)
unfolding find
new_resources_lanes resource [] lanes e = cc
new_resources_lanes resource ((j, policies) ∷ rest) lanes e =
    elim (Bool-cases (str_eq j resource)) [
      | inl c ↦ (policies, sym (some_eq _ lanes (rw c at e)))
      | inr c ↦ new_resources_lanes resource rest lanes (rw c at e)
    ]

none_held-IsHeld :
    (on : Bool) (resources : List (String × List (String × LanePolicy)))
    → IsHeld (none_held on resources)
unfolding new_coordinator lane_at open_leases find
none_held-IsHeld false resources = record { within = λ r l ls e. cc }
none_held-IsHeld true resources = record {
  within = λ r l ls e. elim (Option-cases (find r (new_resources resources))) [
    | inl c ↦
        let none_there : ◌≡◌ {A = Option LaneState} none (some ls) = rw (c, lane_at) at e in cc
    | inr (lanes, c) ↦
        let (policies, same) = new_resources_lanes r resources lanes c in
        let there : find l lanes ≡ some ls = rw (c, lane_at) at e in
        let zero_in : ls.inflight ≡ 0 =
          new_lanes-inflight l policies ls (subst (λ x. find l x ≡ some ls) same there) in
        (zero_in, omega (arith, zero_in))
  ];
}

Calls-IsHeld : {h g : Holding} → IsHeld h → Calls h g → IsHeld g
Calls-IsHeld v done = v
Calls-IsHeld v (acquired {g} contains ctx op calls) =
    acquire-IsHeld contains g ctx op (Calls-IsHeld v calls)
Calls-IsHeld v (released {g} k calls) = release-IsHeld g k (Calls-IsHeld v calls)

-- Whatever is acquired and released from a new coordinator, also where one lease is released many
-- times: the in-flight count of a configured lane is the number of its leases that are not released
-- yet, and it is at most the lane's limit.
pub held_within_limit :
    (on : Bool) (resources : List (String × List (String × LanePolicy))) {h : Holding}
    → Calls (none_held on resources) h
    → (resource lane : String) (ls : LaneState) → lane_at h.coord resource lane ≡ some ls
    → (ls.inflight ≡ open_leases resource lane h.leases) × (ls.inflight ≤ ls.policy.max_in_flight)
held_within_limit on resources calls resource lane ls found =
    (Calls-IsHeld (none_held-IsHeld on resources) calls).within resource lane ls found
