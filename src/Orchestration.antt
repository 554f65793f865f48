-- ===== src/Orchestration.antt =====
-- orchestration/orchestrator.go: the configuration that is replaced while the program runs.
pub mod Updates
pub mod Versions
pub mod Tests
