-- ===== src/Socks.antt =====
-- socks/*.go: the SOCKS5 server in front of an origin.
pub mod World
pub mod Address
pub mod Auth
pub mod Server
pub mod RoundTrip
pub mod Keeps
pub mod Steps
pub mod Enforcement
pub mod Dials
pub mod Handshake
mod Tests
