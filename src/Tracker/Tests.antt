-- ===== src/Tracker/Tests.antt =====
-- The tracker theorems on the events of three connections.

use cloudflared.Common.{ltb, if◌then◌else◌, ℕ, ◌≡◌, refl, List, [], ◌∷◌, arith}
use cloudflared.Connection.Protocol.{quic}
use cloudflared.Tracker.Conns.{
  Status, disconnected, connected, reconnecting, set_url, registering_tunnel, Event,
}
use cloudflared.Tracker.Ready.{make_response, run_events, up_after, ups, make_response-run_events}

abbrev event : ℕ → Status → Event
event i s = record { index = i; event_type = s; protocol = quic }

abbrev flapping : List Event
flapping =
    event 0 registering_tunnel
    ∷ event 0 connected
    ∷ event 1 connected
    ∷ event 0 reconnecting
    ∷ event 2 set_url
    ∷ event 0 connected
    ∷ event 1 disconnected
    ∷ []

one_up : ups 4 flapping ≡ 1
unfolding ups up_after
one_up = refl

make_response-run_events_example :
    make_response (run_events [] flapping)
    ≡ (if ltb 0 (ups 4 flapping) then 200 else 503, ups 4 flapping)
make_response-run_events_example = make_response-run_events 4 flapping (
  omega arith,
  (omega arith, (omega arith, (omega arith, (omega arith, (omega arith, (omega arith, tt)))))),
)
