-- ===== src/Tracker.antt =====
-- tunnelstate/conntracker.go, metrics/readiness.go: which connections are up, and the readiness
-- answer.
pub mod Conns
pub mod Ready
pub mod Protocols
pub mod Tests
