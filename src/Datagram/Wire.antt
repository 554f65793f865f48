-- ===== src/Datagram/Wire.antt =====
-- quic/datagramv2.go: the messages of version 2 and what the other end takes them for.
use cloudflared.Common.{
  ltb, ◌==◌, length, get_elem?, length-append, ℕ, ◌-◌, ◌≤◌, ◌≡◌, refl, ap, ◌↔◌, Bool, true, false,
  Option, some, List, [], ◌∷◌, ◌++◌, arith,
}
use cloudflared.Common.Bytes.{Bytes}
use cloudflared.Datagram.Frame.{
  Platform, type_id_len, max_datagram_frame_size, suffix_metadata, suffix_type, AcceptsSixteen,
  drop_suffix, take_suffix, extract_session_id-append,
}
use cloudflared.Datagram.Muxer.{sent, send_message, channel, delivered, deliver}
use cloudflared.Datagram.MuxerV2.{
  type_udp, Packet, raw, traced, tracing_span, packet_type, packet_payload, packet_metadata,
  send_typed, send_packet, extract_tracing_identity, Arrival, on_session, on_packet, handle_session,
  demuxed_packet, handle_packet, cut_type, demux_v2,
}
use mathlib.Core.List.{append-nil}

-- The body and the type's byte of a message of version 2.
abbrev pub body : Arrival → Bytes
body (on_session s) = s.payload ++ s.id
body (on_packet pk) = packet_payload pk ++ packet_metadata pk

abbrev pub type_byte : Arrival → ℕ
type_byte (on_session s) = 0
type_byte (on_packet pk) = packet_type pk

abbrev pub wire : Arrival → Bytes
wire a = body a ++ type_byte a ∷ []

-- A UUID is of sixteen bytes, a tracing identity of 25.
abbrev pub IsTraced : Packet → Type 0
IsTraced (raw b) = Unit
IsTraced (traced b identity) = length identity ≡ 25
IsTraced (tracing_span b identity) = length identity ≡ 25

abbrev pub IsSendable : Arrival → Type 0
IsSendable (on_session s) = length s.id ≡ 16
IsSendable (on_packet pk) = IsTraced pk

get_elem?-last {ℓ} :
    {A : Type ℓ} (xs : List A) (x : A) → get_elem? (xs ++ x ∷ []) (length xs) ≡ some x
get_elem?-last [] x = refl
get_elem?-last (y ∷ xs) x = get_elem?-last xs x

cut_type-append : (b : Bytes) (t : ℕ) → cut_type (b ++ t ∷ []) ≡ some (b, t)
unfolding cut_type
cut_type-append b t =
    let total = length-append b (t ∷ []) in
    let enough : ltb (length (b ++ t ∷ [])) type_id_len ≡ false = ground (arith, total) in
    let cut : length (b ++ t ∷ []) - 1 ≡ length b = omega (arith, total) in
    rw (enough, cut, get_elem?-last b t, take_suffix b (t ∷ []) type_id_len refl)

extract_tracing_identity-append :
    (b identity : Bytes)
    → length identity ≡ 25
    → extract_tracing_identity (b ++ identity) ≡ some (identity, b)
unfolding extract_tracing_identity
extract_tracing_identity-append b identity e =
    let long : ltb (length (b ++ identity)) 25 ≡ false = ground (arith, length-append b identity) in
    rw (long, drop_suffix b identity 25 e, take_suffix b identity 25 e)

demuxed_packet-sent :
    (pk : Packet)
    → IsTraced pk
    → demuxed_packet (packet_payload pk ++ packet_metadata pk) (packet_type pk) ≡ some pk
unfolding demuxed_packet packet_payload packet_metadata packet_type
demuxed_packet-sent (raw b) h = ap (λ (c : Bytes). some (raw c)) (append-nil b)
demuxed_packet-sent (traced b identity) h = rw (extract_tracing_identity-append b identity h)
demuxed_packet-sent (tracing_span b identity) h = rw (extract_tracing_identity-append b identity h)

packet_type-udp : (pk : Packet) → (packet_type pk == type_udp) ≡ false
unfolding packet_type
packet_type-udp (raw b) = refl
packet_type-udp (traced b identity) = refl
packet_type-udp (tracing_span b identity) = refl

pub demux_v2-wire :
    (from_bytes : Bytes → Option Bytes) (a : Arrival)
    → AcceptsSixteen from_bytes
    → IsSendable a
    → demux_v2 from_bytes channel (wire a) ≡ delivered a
unfolding deliver demux_v2 handle_session handle_packet
demux_v2-wire from_bytes (on_session s) ok h = rw (
  demux_v2,
  cut_type-append (s.payload ++ s.id) 0,
  handle_session,
  extract_session_id-append from_bytes s.payload s.id ok h,
)
demux_v2-wire from_bytes (on_packet pk) ok h = rw (
  demux_v2,
  cut_type-append (packet_payload pk ++ packet_metadata pk) (packet_type pk),
  packet_type-udp pk,
  handle_packet,
  demuxed_packet-sent pk h,
)

send_typed-le :
    (p : Platform) (accepts : Bytes → Bool) (b msg : Bytes) (t : ℕ)
    → send_typed p accepts b t ≡ sent msg
    → (length msg ≤ max_datagram_frame_size p) × (accepts msg ≡ true) × (msg ≡ b ++ t ∷ [])
unfolding send_typed suffix_type send_message
send_typed-le p accepts b msg t e = ground (arith, length-append b (t ∷ []))

-- A packet that is sent goes out as its payload, its metadata and its type's byte, in a message that
-- is within the frame size and that the connection accepts; and it is sent whenever that message is.
pub send_packet-sent :
    (p : Platform) (accepts : Bytes → Bool) (pk : Packet) (msg : Bytes)
    → (send_packet p accepts pk ≡ sent msg) ↔ (
        (length msg ≤ max_datagram_frame_size p)
        × (accepts msg ≡ true)
        × (msg ≡ wire (on_packet pk)))
unfolding send_packet suffix_metadata send_typed suffix_type send_message
send_packet-sent p accepts pk msg =
    let b : Bytes = packet_payload pk ++ packet_metadata pk in
    ground (
      arith,
      length-append (packet_payload pk) (packet_metadata pk),
      length-append b (packet_type pk ∷ []),
    )
