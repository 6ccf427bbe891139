-- ===== src/Backend/Defs.antt =====
-- The coordinator, its admission decisions, and what Release does to a lane.
use Prim.Native.String.{len}
use go_keylane.Base.{
  ℕ, ◌+◌, ◌-◌, String, Bool, true, false, not, ◌||◌, ◌&&◌, Option, none, some, List, [], ◌∷◌,
  Result, ok, err, ◌>>◌, require, ltb, leb, ◌==◌, if◌then◌else◌,
}
use text.Mathlib.Text.{◌==◌ as str_eq}
use go_keylane.Errors.{Error, invalid_config}
use go_keylane.Registry.{find}

pub record BackendOperation : Type 0 where
  pub resource : String
  pub lane : String
  pub stage : String
  pub operation : String

pub record LanePolicy : Type 0 where
  pub max_in_flight : ℕ
  pub queue_limit : ℕ

pub record LaneState : Type 0 where
  pub policy : LanePolicy
  pub inflight : ℕ
  pub queued : ℕ

pub record Coordinator : Type 0 where
  pub enabled : Bool
  pub resources : List (String × List (String × LaneState))

-- `newBackendCoordinator`, for the resources of the configuration.
abbrev pub new_lanes : List (String × LanePolicy) → List (String × LaneState)
new_lanes [] = []
new_lanes ((lane, policy) ∷ rest) =
    (lane, record { policy = policy; inflight = 0; queued = 0 }) ∷ new_lanes rest

abbrev pub new_resources :
    List (String × List (String × LanePolicy)) → List (String × List (String × LaneState))
new_resources [] = []
new_resources ((resource, lanes) ∷ rest) = (resource, new_lanes lanes) ∷ new_resources rest

unfoldable pub new_coordinator : Bool → List (String × List (String × LanePolicy)) → Coordinator
new_coordinator on resources =
    if on
    then record { enabled = true; resources = new_resources resources }
    else record { enabled = false; resources = [] }

-- `BackendAdmissionReason`
pub data AdmissionReason : Type 0 where
  accepted disabled unknown_resource unknown_lane : AdmissionReason
  saturated queue_full cancelled deadline_exhausted : AdmissionReason

-- The error of a context.
pub data ContextError : Type 0 where
  canceled deadline_exceeded : ContextError

-- What `acquire` reads of the stage execution in its context; the fields that a decision copies for
-- reports only (request, key, lane, shard, transport, counts) are left out.
pub record StageExecution : Type 0 where
  pub operation : String
  pub stage : String
  pub has_deadline : Bool
  pub budget_exhausted : Bool
  pub remaining : ℕ

pub record Context : Type 0 where
  pub error : Option ContextError
  pub execution : Option StageExecution

pub record Decision : Type 0 where
  pub resource : String
  pub lane : String
  pub stage : String
  pub operation : String
  pub deadline_remaining : ℕ
  pub deadline_exhausted : Bool
  pub accepted : Bool
  pub reason : AdmissionReason
  pub in_flight : ℕ
  pub capacity : ℕ
  pub queued : ℕ

abbrev or_else : String → String → String
or_else text other = if str_eq text "" then other else text

-- `newBackendAdmissionDecision`
unfoldable pub new_decision :
    Context → BackendOperation → AdmissionReason → Bool → ℕ → ℕ → ℕ → Decision
new_decision ctx op reason admitted in_flight capacity queued = elim ctx.execution [
  | none ↦ record {
    resource = op.resource;
    lane = op.lane;
    stage = op.stage;
    operation = op.operation;
    deadline_remaining = 0;
    deadline_exhausted = false;
    accepted = admitted;
    reason = reason;
    in_flight = in_flight;
    capacity = capacity;
    queued = queued;
  }
  | some exec ↦ record {
    resource = op.resource;
    lane = op.lane;
    stage = or_else op.stage exec.stage;
    operation = or_else op.operation exec.operation;
    deadline_remaining = exec.remaining;
    deadline_exhausted = exec.budget_exhausted;
    accepted = admitted;
    reason = reason;
    in_flight = in_flight;
    capacity = capacity;
    queued = queued;
  }
]

abbrev pub reason_from_context : ContextError → AdmissionReason
reason_from_context canceled = AdmissionReason.cancelled
reason_from_context deadline_exceeded = AdmissionReason.deadline_exhausted

-- A label holds no URL and at most 128 bytes.
unfoldable pub validate_label : (String → String → Bool) → String → Result Error (Unit {0})
validate_label contains value = do
  require (not (contains value "://")) invalid_config
  require (not (ltb 128 (len value))) invalid_config

abbrev validate_if_set : (String → String → Bool) → String → Result Error (Unit {0})
unfolding validate_label
validate_if_set contains value = if str_eq value "" then ok tt else validate_label contains value

unfoldable pub validate_operation :
    (String → String → Bool) → BackendOperation → Result Error (Unit {0})
unfolding validate_label validate_if_set
validate_operation contains op = do
  require (not (str_eq op.resource "")) invalid_config
  require (not (str_eq op.lane "")) invalid_config
  validate_label contains op.resource
  validate_label contains op.lane
  validate_if_set contains op.operation
  validate_if_set contains op.stage

-- A change in place of the value at a key.
unfoldable pub alter {ℓ} : {V : Type ℓ} → String → (V → V) → List (String × V) → List (String × V)
alter k f [] = []
alter k f ((j, v) ∷ m) =
    let rest = alter k f m in if str_eq j k then (j, f v) ∷ m else (j, v) ∷ rest

abbrev pub with_lane : String → String → (LaneState → LaneState) → Coordinator → Coordinator
with_lane resource lane f c = record c { resources = alter resource (alter lane f) c.resources }

-- Release of a `noopBackendLease` does nothing; a tracked one is of a lane of a resource.
pub data Lease : Type 0 where
  noop : Lease
  tracked : String → String → Lease

-- The results of `acquire`: an invalid operation has no decision, and a refusal is the error around
-- the decision.
pub data Acquired : Type 0 where
  invalid : Error → Acquired
  refused : Decision → Acquired
  granted : Lease → Decision → Acquired

abbrev pub out_of_time : Context → Bool
out_of_time ctx = elim ctx.execution [
  | none ↦ false
  | some exec ↦ exec.has_deadline && (exec.budget_exhausted || exec.remaining == 0)
]

-- The critical section, for a lane that is configured.
unfoldable pub admit_lane :
    Coordinator → Context → BackendOperation → LaneState → Coordinator × Acquired
unfolding new_decision
admit_lane c ctx op ls =
    if leb ls.policy.max_in_flight ls.inflight
    then (
      c,
      refused (
          new_decision ctx op AdmissionReason.saturated false ls.inflight ls.policy.max_in_flight
            ls.queued),
    )
    else (
      with_lane op.resource op.lane (λ l. record l { inflight = l.inflight + 1 }) c,
      granted (tracked op.resource op.lane) (
          new_decision ctx op AdmissionReason.accepted true (ls.inflight + 1)
            ls.policy.max_in_flight ls.queued),
    )

abbrev turned_away : Context → BackendOperation → AdmissionReason → Acquired
unfolding new_decision
turned_away ctx op reason = refused (new_decision ctx op reason false 0 0 0)

-- The tests before the critical section, for a context without an error.
unfoldable pub acquire_open : Coordinator → Context → BackendOperation → Coordinator × Acquired
unfolding admit_lane find new_decision
acquire_open c ctx op =
    if not c.enabled
    then (c, granted noop (new_decision ctx op AdmissionReason.disabled true 0 0 0))
    else if out_of_time ctx
    then (c, turned_away ctx op AdmissionReason.deadline_exhausted)
    else elim (find op.resource c.resources) [
      | none ↦ (c, turned_away ctx op AdmissionReason.unknown_resource)
      | some lanes ↦ elim (find op.lane lanes) [
        | none ↦ (c, turned_away ctx op AdmissionReason.unknown_lane)
        | some ls ↦ admit_lane c ctx op ls
      ]
    ]

unfoldable pub acquire :
    (String → String → Bool) → Coordinator → Context → BackendOperation → Coordinator × Acquired
unfolding validate_operation acquire_open
acquire contains c ctx op = elim (validate_operation contains op) [
  | err e ↦ (c, invalid e)
  | ok _ ↦ elim ctx.error [
    | some e ↦ (c, turned_away ctx op (reason_from_context e))
    | none ↦ acquire_open c ctx op
  ]
]

-- The function of a tracked lease, run once; `-` stops at 0 as the guard `inflight > 0` does.
unfoldable pub release_lane : Coordinator → String → String → Coordinator
release_lane c resource lane =
    with_lane resource lane (λ l. record l { inflight = l.inflight - 1 }) c
