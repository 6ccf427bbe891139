-- ===== src/Future.antt =====
-- future.go: the future that a submission returns, completed once.
pub mod Defs
pub mod Once
pub mod Tests
