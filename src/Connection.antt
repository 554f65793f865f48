-- ===== src/Connection.antt =====
-- connection/: the choice of the protocol that connects to the edge.
pub mod Protocol
pub mod Selector
pub mod Choice
pub mod Headers
pub mod Transport
mod Tests
