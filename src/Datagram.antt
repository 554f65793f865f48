-- ===== src/Datagram.antt =====
-- quic/datagram.go, quic/datagramv2.go, quic/param_*.go, tracing/identity.go: UDP sessions and packets
-- as QUIC datagrams.
pub mod Frame
pub mod Muxer
pub mod MuxerV2
pub mod Identity
pub mod Sends
pub mod Wire
pub mod RoundTrip
pub mod Tests
