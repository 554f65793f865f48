-- ===== src/Ingress/Origin.antt =====
-- ingress/config.go: the options for requests to an origin.
pub mod Config
pub mod Raw
pub mod Agreement
pub mod RoundTrip
pub mod Flags
mod Tests
