-- ===== src/Retry/Safety.antt =====
-- The duplicate safety of a retry: idempotency.go.
use go_keylane.Base.{Bool, true, false, not, ◌&&◌, String, Option, none, some, if◌then◌else◌}
use text.Mathlib.Text.{◌==◌ as str_eq}

-- `other` is every value that is not a constant; RetrySafetyUnspecified is one too.
pub data RetrySafety : Type 0 where
  unspecified safe unsafe requires_check : RetrySafety
  other : String → RetrySafety

pub record Idempotency : Type 0 where
  pub key : String
  pub safety : RetrySafety
  pub scope : String
  pub operation : String
  pub allow_unsafe_retry : Bool

-- `no_reason` is the empty text.
pub data RetrySafetyDecisionReason : Type 0 where
  no_reason decided_safe decided_unsafe missing_key hook_allowed : RetrySafetyDecisionReason
  hook_rejected hook_failed no_hook explicit_override : RetrySafetyDecisionReason
  other_reason : String → RetrySafetyDecisionReason

pub record RetrySafetyDecision : Type 0 where
  pub allow : Bool
  pub reason : RetrySafetyDecisionReason
  pub message : String

abbrev decide : Bool → RetrySafetyDecisionReason → RetrySafetyDecision
decide allow reason = record { allow = allow; reason = reason; message = "" }

unfoldable pub normalize_retry_safety_hook_decision : RetrySafetyDecision → RetrySafetyDecision
normalize_retry_safety_hook_decision d = elim d.reason [
  | decided_unsafe ↦ if d.allow then record d { reason = hook_allowed } else d
  | decided_safe ↦ if d.allow then d else record d { reason = hook_rejected }
  | no_reason ↦
      if d.allow then record d { reason = hook_allowed } else record d { reason = hook_rejected }
  | _ ↦ d
]

-- `require` is policy.RequireForRetry; `hook` is policy.Hook on this check, where `none` inside is a
-- panic of the hook.
unfoldable pub decide_retry_safety :
    Bool → Idempotency → Bool → Option (Option RetrySafetyDecision) → RetrySafetyDecision
unfolding normalize_retry_safety_hook_decision
decide_retry_safety enabled idem required hook =
    if not enabled then decide true decided_safe else elim idem.safety [
      | unsafe ↦
          if idem.allow_unsafe_retry
          then record {
            allow = true;
            reason = explicit_override;
            message = "explicit unsafe retry override";
          }
          else if required && str_eq idem.key ""
          then decide false missing_key
          else decide false decided_unsafe
      | safe ↦
          if required && str_eq idem.key ""
          then decide false missing_key
          else decide true decided_safe
      | requires_check ↦
          if required && str_eq idem.key "" then decide false missing_key else elim hook [
            | none ↦ decide false no_hook
            | some none ↦ decide false hook_failed
            | some (some d) ↦ normalize_retry_safety_hook_decision d
          ]
      | _ ↦
          if required && str_eq idem.key ""
          then decide false missing_key
          else decide false decided_unsafe
    ]
