-- ===== src/Supervisor.antt =====
-- supervisor/: how a connection falls back to another protocol or address, and the
-- loop that keeps the connections.
pub mod Errors
pub mod Fallback
pub mod Switching
pub mod AddrFallback
pub mod Run
pub mod Places
pub mod Endings
pub mod Conservation
pub mod Life
pub mod Reconnect
pub mod Tokens
mod Tests
