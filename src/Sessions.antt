-- ===== src/Sessions.antt =====
-- datagramsession/manager.go, datagramsession/session.go: UDP sessions over datagrams.
pub mod Manager
pub mod Closing
pub mod Idle
mod Tests
