-- ===== src/Access.antt =====
-- ipaccess/access.go: which addresses and ports a policy allows.
pub mod Net
pub mod Ports
pub mod Lookup
pub mod Policy
pub mod Decision
mod Tests
