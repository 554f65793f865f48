-- ===== src/Datagram/MuxerV2.antt =====
-- quic/datagramv2.go: DatagramMuxerV2, which carries sessions and packets and ends each message with
-- a byte for its type.

use cloudflared.Common.{
  ltb, ◌==◌, if◌then◌else◌, length, get_elem?, take, drop, ℕ, ◌-◌, Bool, Option, none, some, [],
}
use cloudflared.Common.Bytes.{Bytes}
use cloudflared.Datagram.Frame.{
  Platform, type_id_len, max_datagram_payload_size, suffix_metadata, suffix_session_id, suffix_type,
  extract_session_id,
}
use cloudflared.Datagram.Muxer.{
  Session, Sent, payload_too_big, cannot_suffix_id, cannot_suffix_type, send_message, Selected,
  Demuxed, malformed, deliver,
}

-- DatagramV2Type: DatagramTypeUDP, DatagramTypeIP, DatagramTypeIPWithTrace, DatagramTypeTracingSpan.
abbrev pub type_udp : ℕ
type_udp = 0

abbrev pub type_ip : ℕ
type_ip = 1

abbrev pub type_ip_with_trace : ℕ
type_ip_with_trace = 2

abbrev pub type_tracing_span : ℕ
type_tracing_span = 3

abbrev pub identity_length : ℕ
identity_length = 25

-- Packet, by its implementations: RawPacket, TracedPacket, TracingSpanPacket.
pub data Packet : Type 0 where
  raw : (data_of : Bytes) → Packet
  traced tracing_span : (data_of identity : Bytes) → Packet

-- Packet.Type, Packet.Payload, Packet.Metadata
unfoldable pub packet_type : Packet → ℕ
packet_type (raw b) = type_ip
packet_type (traced b identity) = type_ip_with_trace
packet_type (tracing_span b identity) = type_tracing_span

unfoldable pub packet_payload : Packet → Bytes
packet_payload (raw b) = b
packet_payload (traced b identity) = b
packet_payload (tracing_span b identity) = b

unfoldable pub packet_metadata : Packet → Bytes
packet_metadata (raw b) = []
packet_metadata (traced b identity) = identity
packet_metadata (tracing_span b identity) = identity

-- The end of SendToSession and of SendPacket: the type's suffix and SendMessage.
unfoldable pub send_typed : Platform → (Bytes → Bool) → Bytes → ℕ → Sent
unfolding send_message
send_typed p accepts msg datagram_type = elim (suffix_type p msg datagram_type) [
  | none ↦ cannot_suffix_type
  | some whole ↦ send_message accepts whole
]

unfoldable pub send_to_session_v2 : Platform → (Bytes → Bool) → Session → Sent
send_to_session_v2 p accepts s =
    if ltb (max_datagram_payload_size p) (length s.payload)
    then payload_too_big
    else elim (suffix_session_id p s.id s.payload) [
      | none ↦ cannot_suffix_id
      | some msg ↦ send_typed p accepts msg type_udp
    ]

-- SendPacket; its first error is that of suffixMetadata.
unfoldable pub send_packet : Platform → (Bytes → Bool) → Packet → Sent
send_packet p accepts pk = elim (suffix_metadata p (packet_payload pk) (packet_metadata pk)) [
  | none ↦ cannot_suffix_id
  | some msg ↦ send_typed p accepts msg (packet_type pk)
]

-- extractTracingIdentity: the identity and the payload.
unfoldable pub extract_tracing_identity : Bytes → Option (Bytes × Bytes)
extract_tracing_identity pk =
    if ltb (length pk) identity_length
    then none
    else some (drop (length pk - identity_length) pk, take (length pk - identity_length) pk)

-- What arrives on sessionDemuxChan or on packetDemuxChan.
pub data Arrival : Type 0 where
  on_session : Session → Arrival
  on_packet : Packet → Arrival

unfoldable pub handle_session : (Bytes → Option Bytes) → Selected → Bytes → Demuxed Arrival
handle_session from_bytes selected msg = elim (extract_session_id from_bytes msg) [
  | none ↦ malformed
  | some (session_id, payload) ↦
      deliver selected (on_session (record { id = session_id; payload = payload }))
]

-- handlePacket up to its `select`: the packet, or none for its errors.
unfoldable pub demuxed_packet : Bytes → ℕ → Option Packet
demuxed_packet pk msg_type =
    if msg_type == type_ip
    then some (raw pk)
    else if msg_type == type_ip_with_trace
    then elim (extract_tracing_identity pk) [
      | none ↦ none
      | some (identity, payload) ↦ some (traced payload identity)
    ]
    else if msg_type == type_tracing_span
    then elim (extract_tracing_identity pk) [
      | none ↦ none
      | some (identity, spans) ↦ some (tracing_span spans identity)
    ]
    else none

unfoldable pub handle_packet : Selected → Bytes → ℕ → Demuxed Arrival
handle_packet selected pk msg_type = elim (demuxed_packet pk msg_type) [
  | none ↦ malformed
  | some got ↦ deliver selected (on_packet got)
]

-- The type byte of a message, if it has one, and what is before it.
unfoldable pub cut_type : Bytes → Option (Bytes × ℕ)
cut_type msg =
    if ltb (length msg) type_id_len then none else elim (get_elem? msg (length msg - type_id_len)) [
      | none ↦ none
      | some msg_type ↦ some (take (length msg - type_id_len) msg, msg_type)
    ]

unfoldable pub demux_v2 : (Bytes → Option Bytes) → Selected → Bytes → Demuxed Arrival
demux_v2 from_bytes selected msg_with_type = elim (cut_type msg_with_type) [
  | none ↦ malformed
  | some (msg, msg_type) ↦
      if msg_type == type_udp
      then handle_session from_bytes selected msg
      else handle_packet selected msg msg_type
]
