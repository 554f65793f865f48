-- ===== src/Sessions/Manager.antt =====
-- datagramsession/manager.go: the event loop of the manager, with the reading goroutines of its
-- sessions. A session is an address; ids are numbers. What matters of a session's closeChan, which
-- holds two values, is who sends to it: the manager's close and the goroutine's last error.
use cloudflared.Common.{
  ◌==◌, if◌then◌else◌, ℕ, ◌+◌, Bool, true, false, ◌&&◌, ◌||◌, not, none, some, List, [], ◌∷◌, ◌++◌,
}
use cloudflared.Common.Bytes.{Bytes, bytes_eq_inst}
use cloudflared.Common.Tally.{values}
use cloudflared.Common.Map.{nat_eq, lookup, insert, erase}

-- Addresses from `fresh` on are not allocated; `closes` are the calls of close, `ended` the goroutines
-- that sent their error and returned, `delivered` the writes to destinations, the last one first.
pub record Manager : Type 0 where
  pub sessions : List (ℕ × ℕ)
  pub fresh : ℕ
  pub closes : List ℕ
  pub ended : List ℕ
  pub delivered : List (ℕ × Bytes)
  pub stopped : Bool

unfoldable pub new_manager : Manager
new_manager = record {
  sessions = [];
  fresh = 0;
  closes = [];
  ended = [];
  delivered = [];
  stopped = false;
}

unfoldable pub register_session : Manager → ℕ → Manager
register_session m id = record m { sessions = insert id m.fresh m.sessions; fresh = m.fresh + 1 }

unfoldable pub unregister_session : Manager → ℕ → Manager
unregister_session m id = elim (lookup id m.sessions) [
  | none ↦ m
  | some s ↦ record m { sessions = erase id m.sessions; closes = s ∷ m.closes }
]

unfoldable pub send_to_session : Manager → ℕ → Bytes → Manager
send_to_session m id payload = elim (lookup id m.sessions) [
  | none ↦ m
  | some s ↦ record m { delivered = (s, payload) ∷ m.delivered }
]

-- It closes each session of the map.
unfoldable pub shutdown_sessions : Manager → Manager
shutdown_sessions m = record m { closes = values m.sessions ++ m.closes; stopped = true }

-- dstToTransport on what a read gave: how many bytes, whether it failed, whether the send failed.
-- The flags are closeSession and whether there is an error.
unfoldable pub dst_to_transport : ℕ → Bool → Bool → Bool × Bool
dst_to_transport n read_failed send_failed =
    if (not (n == 0) || not read_failed) && send_failed
    then (false, true)
    else (read_failed, read_failed)

unfoldable pub mark_ended : Manager → ℕ → Bool × Bool → Manager
mark_ended m s (true, true) = record m { ended = s ∷ m.ended }
mark_ended m s (true, false) = m
mark_ended m s (false, failed) = m

abbrev pub is_in : ℕ → List ℕ → Bool
is_in s [] = false
is_in s (t ∷ ts) = (s == t) || is_in s ts

-- A turn of the goroutine of a session that has not returned
unfoldable pub read_turn : Manager → ℕ → ℕ → Bool → Bool → Manager
read_turn m s n read_failed send_failed =
    if is_in s m.ended then m else mark_ended m s (dst_to_transport n read_failed send_failed)

-- What the select of Serve meets, and the turns of the goroutines
pub data Event : Type 0 where
  registration unregistration : ℕ → Event
  datagram : ℕ → Bytes → Event
  context_done : Event
  read_by : ℕ → ℕ → Bool → Bool → Event

unfoldable pub serve_turn : Manager → Event → Manager
serve_turn m (registration id) = register_session m id
serve_turn m (unregistration id) = unregister_session m id
serve_turn m (datagram id payload) = send_to_session m id payload
serve_turn m context_done = shutdown_sessions m
serve_turn m (read_by s n read_failed send_failed) = read_turn m s n read_failed send_failed

-- After its end the manager takes nothing, while the goroutines go on.
unfoldable pub manager_step : Manager → Event → Manager
manager_step m (read_by s n read_failed send_failed) = read_turn m s n read_failed send_failed
manager_step m (registration id) = if m.stopped then m else serve_turn m (registration id)
manager_step m (unregistration id) = if m.stopped then m else serve_turn m (unregistration id)
manager_step m (datagram id payload) = if m.stopped then m else serve_turn m (datagram id payload)
manager_step m context_done = if m.stopped then m else serve_turn m context_done

abbrev pub manager_run : Manager → List Event → Manager
manager_run m [] = m
manager_run m (e ∷ es) = manager_run (manager_step m e) es
