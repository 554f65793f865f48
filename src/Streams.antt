-- ===== src/Streams.antt =====
-- h2mux/activestreammap.go, h2mux/readylist.go: the streams of a muxer, and those that are ready.
pub mod Active
pub mod Upkeep
pub mod Ready
pub mod Stream
pub mod Windows
pub mod Outgoing
pub mod Frames
mod FlowTests
pub mod Queue
pub mod Represents
pub mod Arrivals
pub mod Signals
pub mod Departures
pub mod Refinement
pub mod Fairness
pub mod Ids
pub mod Tests
