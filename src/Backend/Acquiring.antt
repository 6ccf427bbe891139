-- ===== src/Backend/Acquiring.antt =====
-- The two ways of acquire in backend_coordinator.go.
use go_keylane.Base.{
  subst, ◌+◌, ◌≡◌, ◌<◌, ◌⊎◌, inl, inr, refl, sym, String, Bool, true, some, Bool-cases,
  Option-cases, Result-cases, leb, arith,
}
use go_keylane.Registry.{find}
use go_keylane.Backend.Defs.{
  Coordinator, LaneState, Context, BackendOperation, Decision, Acquired, AdmissionReason, granted,
  tracked, new_decision, with_lane, admit_lane, acquire_open, acquire, validate_operation,
  out_of_time,
}
use go_keylane.Backend.Holding.{Holding, after_acquire, lane_at}

-- The two ways of `acquire`: nothing changes, or a lane with room gives a lease.
abbrev pub Acquires : Holding → BackendOperation → Coordinator × Acquired → Type 0
Acquires h op result =
    (after_acquire h result ≡ h)
    ⊎ ((ls : LaneState) × (decision : Decision) × (lane_at h.coord op.resource op.lane ≡ some ls)
        × (ls.inflight < ls.policy.max_in_flight)
        × (result ≡ (
          with_lane op.resource op.lane (λ l. record l { inflight = l.inflight + 1 }) h.coord,
          granted (tracked op.resource op.lane) decision,
        )))

admit_lane-Acquires :
    (h : Holding) (ctx : Context) (op : BackendOperation) (ls : LaneState)
    → lane_at h.coord op.resource op.lane ≡ some ls
    → Acquires h op (admit_lane h.coord ctx op ls)
unfolding admit_lane
admit_lane-Acquires h ctx op ls e = elim (Bool-cases (leb ls.policy.max_in_flight ls.inflight)) [
  | inl c ↦ inl (rw (c, admit_lane) refl)
  | inr c ↦ inr (
    ls,
    new_decision ctx op AdmissionReason.accepted true (ls.inflight + 1) ls.policy.max_in_flight
        ls.queued,
    e,
    ground (arith, c),
    rw (c, admit_lane) refl,
  )
]

acquire_open-Acquires :
    (h : Holding) (ctx : Context) (op : BackendOperation)
    → Acquires h op (acquire_open h.coord ctx op)
unfolding acquire_open lane_at
acquire_open-Acquires h ctx op = elim (Bool-cases h.coord.enabled) [
  | inr c₂ ↦ inl (simp (c₂, acquire_open))
  | inl c₂ ↦ elim (Bool-cases (out_of_time ctx)) [
    | inl c₃ ↦ inl (simp (c₂, c₃, acquire_open))
    | inr c₃ ↦ elim (Option-cases (find op.resource h.coord.resources)) [
      | inl c₄ ↦ inl (simp (c₂, c₃, c₄, acquire_open))
      | inr (lanes, c₄) ↦ elim (Option-cases (find op.lane lanes)) [
        | inl c₅ ↦ inl (simp (c₂, c₃, c₄, c₅, acquire_open))
        | inr (ls, c₅) ↦
            let at : lane_at h.coord op.resource op.lane ≡ some ls = rw (c₄, lane_at) c₅ in
            let opens : acquire_open h.coord ctx op ≡ admit_lane h.coord ctx op ls =
              simp (c₂, c₃, c₄, c₅, acquire_open) in
            subst (Acquires h op) (sym opens) (admit_lane-Acquires h ctx op ls at)
      ]
    ]
  ]
]

pub acquire-Acquires :
    (contains : String → String → Bool) (h : Holding) (ctx : Context) (op : BackendOperation)
    → Acquires h op (acquire contains h.coord ctx op)
unfolding acquire
acquire-Acquires contains h ctx op = elim (Result-cases (validate_operation contains op)) [
  | inr (e, c₀) ↦ inl (rw (c₀, acquire) refl)
  | inl (u, c₀) ↦ elim (Option-cases ctx.error) [
    | inr (e, c₁) ↦ inl (rw (c₀, c₁, acquire) refl)
    | inl c₁ ↦
        let opens : acquire contains h.coord ctx op ≡ acquire_open h.coord ctx op =
          rw (c₀, c₁, acquire) refl in
        subst (Acquires h op) (sym opens) (acquire_open-Acquires h ctx op)
  ]
]
