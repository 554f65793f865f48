-- ===== src/Datagram/Tests.antt =====
-- The datagram theorems on short payloads.

use cloudflared.Common.{
  ◌==◌, if◌then◌else◌, length, All, ◌≤◌, ◌<◌, ◌≡◌, refl, Bool, true, Option, none, some, List, [],
  ◌∷◌, ◌++◌, map, arith,
}
use cloudflared.Datagram.Sends.{messages, went, received}
use cloudflared.Common.Bytes.{Bytes}
use cloudflared.Datagram.Frame.{
  on_windows, on_unix, max_datagram_payload_size, extract_session_id, AcceptsSixteen,
}
use cloudflared.Datagram.Muxer.{
  Session, payload_too_big, send_message, send_to_session, channel, ctx_canceled, deliver, demux,
  after_demux, serve_receive,
}
use cloudflared.Datagram.MuxerV2.{
  raw, traced, tracing_span, send_to_session_v2, Arrival, on_session, on_packet, demux_v2,
}
use cloudflared.Datagram.Identity.{
  Identity, marshal_binary, unmarshal_binary, unmarshal_binary-marshal_binary,
}
use cloudflared.Datagram.RoundTrip.{
  send_to_session-total, TakesFrames, serve_receive-arrives, send_arrival, HasRoom,
  serve_receive-arrives_v2,
}

-- uuid.FromBytes: the sixteen bytes, or an error.
abbrev uuid_from_bytes : Bytes → Option Bytes
uuid_from_bytes b = if length b == 16 then some b else none

uuid_from_bytes-AcceptsSixteen : AcceptsSixteen uuid_from_bytes
uuid_from_bytes-AcceptsSixteen b e = rw e

abbrev sixteen : Bytes
sixteen = 0 ∷ 1 ∷ 2 ∷ 3 ∷ 4 ∷ 5 ∷ 6 ∷ 7 ∷ 8 ∷ 9 ∷ 10 ∷ 11 ∷ 12 ∷ 13 ∷ 14 ∷ 15 ∷ []

abbrev twenty_five : Bytes
twenty_five = sixteen ++ 1 ∷ 2 ∷ 3 ∷ 4 ∷ 5 ∷ 6 ∷ 7 ∷ 8 ∷ 9 ∷ []

abbrev hello : Session
hello = record { id = sixteen; payload = 104 ∷ 105 ∷ [] }

abbrev silent : Session
silent = record { id = sixteen; payload = [] }

abbrev accepts_all : Bytes → Bool
accepts_all b = true

-- A message too short for a session ID is dropped, and a canceled context ends the loop.
abbrev served : List Session
served = serve_receive (demux uuid_from_bytes) (
    (some (1 ∷ []), channel)
    ∷ (some (7 ∷ sixteen), channel)
    ∷ (some sixteen, ctx_canceled)
    ∷ (some sixteen, channel)
    ∷ [])

served_one : served ≡ record { id = sixteen; payload = 7 ∷ [] } ∷ []
unfolding serve_receive after_demux demux deliver extract_session_id
served_one = refl

send_to_session-total_example :
    (max_datagram_payload_size on_windows < length hello.payload
      → (send_to_session on_windows accepts_all hello ≡ payload_too_big)
        × (send_to_session_v2 on_windows accepts_all hello ≡ payload_too_big))
    × (length hello.payload ≤ max_datagram_payload_size on_windows
        → (send_to_session on_windows accepts_all hello
            ≡ send_message accepts_all (hello.payload ++ hello.id))
          × (send_to_session_v2 on_windows accepts_all hello
              ≡ send_message accepts_all ((hello.payload ++ hello.id) ++ 0 ∷ [])))
send_to_session-total_example = send_to_session-total on_windows accepts_all hello refl

serve_receive-arrives_example :
    let send = send_to_session on_unix accepts_all in
    let ss = hello ∷ silent ∷ [] in
    (serve_receive (demux uuid_from_bytes) (map received (messages send ss)) ≡ went send ss)
    × (TakesFrames on_unix accepts_all
        → All (λ (s : Session). length s.payload ≤ max_datagram_payload_size on_unix) ss
        → went send ss ≡ ss)
serve_receive-arrives_example =
    serve_receive-arrives on_unix accepts_all uuid_from_bytes (hello ∷ silent ∷ [])
      uuid_from_bytes-AcceptsSixteen (refl, (refl, tt))

abbrev mixed : List Arrival
mixed =
    on_packet (traced (1 ∷ 2 ∷ []) twenty_five)
    ∷ on_session hello
    ∷ on_packet (raw (9 ∷ []))
    ∷ on_packet (tracing_span [] twenty_five)
    ∷ []

serve_receive-arrives_v2_example :
    let send = send_arrival on_unix accepts_all in
    (serve_receive (demux_v2 uuid_from_bytes) (map received (messages send mixed))
      ≡ went send mixed)
    × (TakesFrames on_unix accepts_all → All (HasRoom on_unix) mixed → went send mixed ≡ mixed)
serve_receive-arrives_v2_example =
    serve_receive-arrives_v2 on_unix accepts_all uuid_from_bytes mixed
      uuid_from_bytes-AcceptsSixteen (refl, (refl, (tt, (refl, tt))))

abbrev nine : Bytes
nine = 9 ∷ 1 ∷ []

abbrev traced_request : Identity
traced_request = record { trace_id_upper = 513; trace_id_lower = 70000; span_id = 3; flags = 1 }

unmarshal_binary-marshal_binary_example :
    (length (marshal_binary traced_request) ≡ 25)
    × (unmarshal_binary (marshal_binary traced_request ++ 7 ∷ []) ≡ some traced_request)
unmarshal_binary-marshal_binary_example =
    unmarshal_binary-marshal_binary traced_request (7 ∷ [])
      (omega arith, omega arith, omega arith, omega arith)
