-- ===== src/Funnels.antt =====
-- packet/funnel.go: the funnels of packets to origins.
pub mod Tracking
pub mod Conservation
mod Tests
