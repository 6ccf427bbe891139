-- ===== src/Admission.antt =====
-- internal/core/admission_policy.go: the policy by lane, its snapshot and the decision to admit.
pub mod Defs
pub mod Evaluate
pub mod Build
pub mod Valid
pub mod Updating
pub mod Pressure
pub mod Totals
pub mod Tests
