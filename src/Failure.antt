-- ===== src/Failure.antt =====
-- failure.go, the error values that it classifies, and the completion of a future in future.go.
pub mod Defs
pub mod Classify
pub mod Wrapping
pub mod Tests
