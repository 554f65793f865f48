-- ===== src/Retry.antt =====
-- retry/backoffhandler.go
pub mod Backoff
pub mod Bounds
mod Tests
