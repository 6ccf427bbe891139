-- ===== src/Scale.antt =====
-- internal/core/scale_signal.go and scale_signal_policy.go: the advice to scale out.
pub mod Triggers
pub mod Defs
pub mod Rates
pub mod Signal
pub mod Firing
pub mod Log
pub mod Windows
pub mod Recommending
pub mod Tests
