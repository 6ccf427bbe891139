-- ===== src/Retry.antt =====
-- retry_policy.go, idempotency.go, retry_suppression.go and retry_trace.go. A float64 is a value of a
-- type `W` with the operations that the code uses (Base/Floats.antt), and a time is its Unix
-- nanoseconds.
pub mod Policy
pub mod Safety
pub mod Suppression
pub mod Suppressing
pub mod Decide
pub mod Trace
pub mod Turns
pub mod Checks
pub mod Steps
pub mod Loop
pub mod Pipeline
pub mod Turned
pub mod Bounds
pub mod Attempts
pub mod Normal
pub mod Delay
pub mod Timely
pub mod Agreement
pub mod Sparing
pub mod Tests
