-- ===== src/Tracker/Conns.antt =====
-- tunnelstate/conntracker.go, with the events of connection/event.go. The map is an association list
-- by connection index.

use cloudflared.Common.{ℕ, Bool, true, false, ◌||◌, none, some, List, [], ◌∷◌}
use cloudflared.Common.Map.{nat_eq, lookup, insert}
use cloudflared.Common.Count.{count_p}
use cloudflared.Connection.Protocol.{Protocol, http2, protocol_eq}

-- Status of connection/event.go
pub data Status : Type 0 where
  disconnected connected reconnecting set_url registering_tunnel unregistering : Status

-- Event; its location and URL are not read here.
pub record Event : Type 0 where
  pub index : ℕ
  pub event_type : Status
  pub protocol : Protocol

pub record ConnectionInfo : Type 0 where
  pub is_connected : Bool
  pub protocol : Protocol

abbrev pub Tracker : Type 0
Tracker = List (ℕ × ConnectionInfo)

-- `ct.connectionInfo[i]`: the zero ConnectionInfo of a missing key is not connected, with the zero
-- Protocol, HTTP2.
unfoldable pub info_of : Tracker → ℕ → ConnectionInfo
info_of ct i = elim (lookup i ct) [
  | none ↦ record { is_connected = false; protocol = http2 }
  | some ci ↦ ci
]

-- The case of the four statuses that end a connection.
unfoldable pub marked_down : Tracker → ℕ → Tracker
unfolding info_of
marked_down ct i = insert i (record (info_of ct i) { is_connected = false }) ct

-- The switch on the event's type.
unfoldable pub on_status : Tracker → ℕ → Protocol → Status → Tracker
on_status ct i p connected = insert i (record { is_connected = true; protocol = p }) ct
on_status ct i p disconnected = marked_down ct i
on_status ct i p reconnecting = marked_down ct i
on_status ct i p registering_tunnel = marked_down ct i
on_status ct i p unregistering = marked_down ct i
on_status ct i p set_url = ct

unfoldable pub on_tunnel_event : Tracker → Event → Tracker
on_tunnel_event ct c = on_status ct c.index c.protocol c.event_type

abbrev pub is_up : ℕ × ConnectionInfo → Bool
is_up (i, ci) = ci.is_connected

unfoldable pub count_active_conns : Tracker → ℕ
count_active_conns ct = count_p is_up ct

-- HasConnectedWith
unfoldable pub has_connected_with : Tracker → Protocol → Bool
has_connected_with [] p = false
has_connected_with ((i, ci) ∷ ct) p = protocol_eq ci.protocol p || has_connected_with ct p
