-- ===== src/Datagram/RoundTrip.antt =====
-- quic/datagram.go, quic/datagramv2.go: what one end sends, the other end receives.

use cloudflared.Common.{
  ltb, length, length-append, All, ℕ, ◌≤◌, ◌<◌, ◌≡◌, refl, sym, ◌∙◌, ◌⊎◌, inl, inr, Bool, true,
  false, Option, some, List, [], ◌∷◌, ◌++◌, map, arith,
}
use cloudflared.Common.Bytes.{Bytes}
use cloudflared.Datagram.Frame.{
  Platform, on_windows, on_unix, max_datagram_frame_size, max_datagram_payload_size,
  suffix_metadata, suffix_session_id, suffix_type, AcceptsSixteen, extract_session_id-append,
}
use cloudflared.Datagram.Muxer.{
  Session, Sent, payload_too_big, sent, send_message, send_to_session, channel, delivered, deliver,
  demux, serve_receive,
}
use cloudflared.Datagram.MuxerV2.{
  send_typed, send_to_session_v2, send_packet, Arrival, on_session, on_packet, demux_v2,
}
use cloudflared.Datagram.Sends.{messages, went, each_went, received, each_arrives}
use cloudflared.Datagram.Wire.{wire, IsSendable, demux_v2-wire, send_packet-sent}

-- A session with a UUID, whose payload is within the mtu.
abbrev pub Fits : Platform → Session → Type 0
Fits p s = (length s.id ≡ 16) × (length s.payload ≤ max_datagram_payload_size p)

suffix_session_id-Fits :
    (p : Platform) (s : Session)
    → Fits p s
    → suffix_session_id p s.id s.payload ≡ some (s.payload ++ s.id)
unfolding suffix_session_id suffix_metadata max_datagram_payload_size max_datagram_frame_size
suffix_session_id-Fits on_windows s h = ground arith
suffix_session_id-Fits on_unix s h = ground arith

suffix_type-Fits :
    (p : Platform) (s : Session) (t : ℕ)
    → Fits p s
    → suffix_type p (s.payload ++ s.id) t ≡ some ((s.payload ++ s.id) ++ t ∷ [])
unfolding suffix_type max_datagram_payload_size max_datagram_frame_size
suffix_type-Fits on_windows s t h = ground (arith, length-append s.payload s.id)
suffix_type-Fits on_unix s t h = ground (arith, length-append s.payload s.id)

-- Whatever the build, a session's payload is refused for its size exactly above the mtu: the room left
-- for the session's UUID and the type's byte always suffices, in both versions, and the message
-- given to the connection is the payload, the UUID and, in version 2, the byte 0.
pub send_to_session-total :
    (p : Platform) (accepts : Bytes → Bool) (s : Session)
    → length s.id ≡ 16
    → (max_datagram_payload_size p < length s.payload
        → (send_to_session p accepts s ≡ payload_too_big)
          × (send_to_session_v2 p accepts s ≡ payload_too_big))
      × (length s.payload ≤ max_datagram_payload_size p
          → (send_to_session p accepts s ≡ send_message accepts (s.payload ++ s.id))
            × (send_to_session_v2 p accepts s
                ≡ send_message accepts ((s.payload ++ s.id) ++ 0 ∷ [])))
unfolding send_to_session send_to_session_v2 send_typed
send_to_session-total p accepts s e = (
  (λ big.
      let over : ltb (max_datagram_payload_size p) (length s.payload) ≡ true = ground arith in
      (rw over, rw over)),
  λ small.
      let over : ltb (max_datagram_payload_size p) (length s.payload) ≡ false = ground arith in
      let suffixed = suffix_session_id-Fits p s (e, small) in
      (rw (over, suffixed), rw (over, suffixed, send_typed, suffix_type-Fits p s 0 (e, small))),
)

-- The connection takes every message that is within the frame size.
abbrev pub TakesFrames : Platform → (Bytes → Bool) → Type 0
TakesFrames p accepts = (msg : Bytes) → length msg ≤ max_datagram_frame_size p → accepts msg ≡ true

send_message-some :
    (p : Platform) (accepts : Bytes → Bool) (msg : Bytes)
    → TakesFrames p accepts
    → length msg ≤ max_datagram_frame_size p
    → send_message accepts msg ≡ sent msg
unfolding send_message
send_message-some p accepts msg takes h = rw (takes msg h) refl

send_message-same :
    (accepts : Bytes → Bool) (b msg : Bytes) → send_message accepts b ≡ sent msg → msg ≡ b
unfolding send_message
send_message-same accepts b msg e = ground (arith, e)

frame_room :
    (p : Platform) (s : Session)
    → Fits p s
    → (length (s.payload ++ s.id) ≤ max_datagram_frame_size p)
      × (length ((s.payload ++ s.id) ++ 0 ∷ []) ≤ max_datagram_frame_size p)
unfolding max_datagram_payload_size max_datagram_frame_size
frame_room on_windows s h = (
  omega (arith, length-append s.payload s.id, h.0, h.1),
  omega (arith, length-append s.payload s.id, length-append (s.payload ++ s.id) (0 ∷ []), h.0, h.1),
)
frame_room on_unix s h = (
  omega (arith, length-append s.payload s.id, h.0, h.1),
  omega (arith, length-append s.payload s.id, length-append (s.payload ++ s.id) (0 ∷ []), h.0, h.1),
)

-- What either version puts on the wire for a session
session_message :
    (p : Platform) (accepts : Bytes → Bool) (s : Session) (msg : Bytes)
    → length s.id ≡ 16
    → (send_to_session p accepts s ≡ sent msg → msg ≡ s.payload ++ s.id)
      × (send_to_session_v2 p accepts s ≡ sent msg → msg ≡ (s.payload ++ s.id) ++ 0 ∷ [])
session_message p accepts s msg e =
    let (big, small) = send_to_session-total p accepts s e in
    elim (le_or_lt (length s.payload) (max_datagram_payload_size p)) [
      | inl fits ↦
          let (one, two) = small fits in
          (
            (λ h. send_message-same accepts (s.payload ++ s.id) msg (sym one ∙ h)),
            λ h. send_message-same accepts ((s.payload ++ s.id) ++ 0 ∷ []) msg (sym two ∙ h),
          )
      | inr over ↦
          let (one, two) = big over in
          (
            (λ h. elim (too_big_not_sent (sym one ∙ h)) [ ]),
            λ h. elim (too_big_not_sent (sym two ∙ h)) [ ],
          )
    ]
  where
    le_or_lt : (m n : ℕ) → (m ≤ n) ⊎ (n < m)
    le_or_lt m n = ground arith

    too_big_not_sent : payload_too_big ≡ sent msg → ⊥
    too_big_not_sent z = cc

demux-arrives :
    (from_bytes : Bytes → Option Bytes) (s : Session)
    → AcceptsSixteen from_bytes
    → length s.id ≡ 16
    → demux from_bytes channel (s.payload ++ s.id) ≡ delivered s
unfolding demux deliver
demux-arrives from_bytes s ok e =
    rw (demux, extract_session_id-append from_bytes s.payload s.id ok e)

-- What a muxer of version 1 sends of any sessions with UUIDs, served at the other end with a receiver
-- that takes it, is delivered in order, each with its UUID and payload, and is exactly the sessions
-- whose send succeeded. If the connection takes every message within the frame size and no payload is
-- longer than the mtu, these are all of them.
pub serve_receive-arrives :
    (p : Platform) (accepts : Bytes → Bool) (from_bytes : Bytes → Option Bytes) (ss : List Session)
    → AcceptsSixteen from_bytes
    → All (λ (s : Session). length s.id ≡ 16) ss
    → (serve_receive (demux from_bytes) (map received (messages (send_to_session p accepts) ss))
        ≡ went (send_to_session p accepts) ss)
      × (TakesFrames p accepts
          → All (λ (s : Session). length s.payload ≤ max_datagram_payload_size p) ss
          → went (send_to_session p accepts) ss ≡ ss)
serve_receive-arrives p accepts from_bytes ss ok h = (
  each_arrives (send_to_session p accepts) (demux from_bytes) ss (each ss h),
  λ takes small. each_went (send_to_session p accepts) ss (succeed ss takes h small),
)
  where
    each :
        (ss : List Session)
        → All (λ (s : Session). length s.id ≡ 16) ss
        → All
            (λ (s : Session).
              (msg : Bytes)
              → send_to_session p accepts s ≡ sent msg
              → demux from_bytes channel msg ≡ delivered s)
            ss
    each [] h = tt
    each (s ∷ ss) h = (
      (λ msg e.
          let same = (session_message p accepts s msg h.0).0 e in
          rw same (demux-arrives from_bytes s ok h.0)),
      each ss h.1,
    )

    succeed :
        (ss : List Session)
        → TakesFrames p accepts
        → All (λ (s : Session). length s.id ≡ 16) ss
        → All (λ (s : Session). length s.payload ≤ max_datagram_payload_size p) ss
        → All (λ (s : Session). (msg : Bytes) × (send_to_session p accepts s ≡ sent msg)) ss
    succeed [] takes h small = tt
    succeed (s ∷ ss) takes h small = (
      (
        s.payload ++ s.id,
        ((send_to_session-total p accepts s h.0).1 small.0).0
            ∙ send_message-some p accepts (s.payload ++ s.id) takes
                (frame_room p s (h.0, small.0)).0,
      ),
      succeed ss takes h.1 small.1,
    )

-- SendToSession and SendPacket
abbrev pub send_arrival : Platform → (Bytes → Bool) → Arrival → Sent
send_arrival p accepts (on_session s) = send_to_session_v2 p accepts s
send_arrival p accepts (on_packet pk) = send_packet p accepts pk

-- A payload within the mtu, or a packet that has room for its metadata and its type's byte
abbrev pub HasRoom : Platform → Arrival → Type 0
HasRoom p (on_session s) = length s.payload ≤ max_datagram_payload_size p
HasRoom p (on_packet pk) = length (wire (on_packet pk)) ≤ max_datagram_frame_size p

arrival_message :
    (p : Platform) (accepts : Bytes → Bool) (a : Arrival) (msg : Bytes)
    → IsSendable a
    → send_arrival p accepts a ≡ sent msg
    → msg ≡ wire a
arrival_message p accepts (on_session s) msg h e = (session_message p accepts s msg h).1 e
arrival_message p accepts (on_packet pk) msg h e = ((send_packet-sent p accepts pk msg).0 e).2

arrival_sent :
    (p : Platform) (accepts : Bytes → Bool) (a : Arrival)
    → TakesFrames p accepts
    → IsSendable a
    → HasRoom p a
    → send_arrival p accepts a ≡ sent (wire a)
arrival_sent p accepts (on_session s) takes h room =
    ((send_to_session-total p accepts s h).1 room).1
    ∙ send_message-some p accepts ((s.payload ++ s.id) ++ 0 ∷ []) takes (frame_room p s (h, room)).1
arrival_sent p accepts (on_packet pk) takes h room =
    (send_packet-sent p accepts pk (wire (on_packet pk))).1
      (room, takes (wire (on_packet pk)) room, refl)

-- What a muxer of version 2 sends of sessions and of the three kinds of packets, however they mix,
-- where every session has a UUID and every tracing identity 25 bytes, served at the other end with a
-- receiver that takes it, is delivered in order and unchanged: the same sessions, and the same packets
-- with their type and tracing identity, exactly those whose send succeeded. If the connection takes
-- every message within the frame size, no session's payload is longer than the mtu and every packet
-- has room for its metadata and its type, these are all of them.
pub serve_receive-arrives_v2 :
    (p : Platform) (accepts : Bytes → Bool) (from_bytes : Bytes → Option Bytes)
    (arrivals : List Arrival)
    → AcceptsSixteen from_bytes
    → All IsSendable arrivals
    → (serve_receive
          (demux_v2 from_bytes)
          (map received (messages (send_arrival p accepts) arrivals))
        ≡ went (send_arrival p accepts) arrivals)
      × (TakesFrames p accepts
          → All (HasRoom p) arrivals
          → went (send_arrival p accepts) arrivals ≡ arrivals)
serve_receive-arrives_v2 p accepts from_bytes arrivals ok h = (
  each_arrives (send_arrival p accepts) (demux_v2 from_bytes) arrivals (each arrivals h),
  λ takes room. each_went (send_arrival p accepts) arrivals (succeed arrivals takes h room),
)
  where
    each :
        (xs : List Arrival)
        → All IsSendable xs
        → All
            (λ (a : Arrival).
              (msg : Bytes)
              → send_arrival p accepts a ≡ sent msg
              → demux_v2 from_bytes channel msg ≡ delivered a)
            xs
    each [] h = tt
    each (a ∷ xs) h = (
      (λ msg e.
          let same = arrival_message p accepts a msg h.0 e in
          rw same (demux_v2-wire from_bytes a ok h.0)),
      each xs h.1,
    )

    succeed :
        (xs : List Arrival)
        → TakesFrames p accepts
        → All IsSendable xs
        → All (HasRoom p) xs
        → All (λ (a : Arrival). (msg : Bytes) × (send_arrival p accepts a ≡ sent msg)) xs
    succeed [] takes h room = tt
    succeed (a ∷ xs) takes h room =
        ((wire a, arrival_sent p accepts a takes h.0 room.0), succeed xs takes h.1 room.1)
