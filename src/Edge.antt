-- ===== src/Edge.antt =====
-- edgediscovery/: the addresses of the edge, and which connection uses which.
pub mod AddrSet
pub mod Region
pub mod Regions
mod Tests
