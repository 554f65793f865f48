-- ===== src/Tracker/Protocols.antt =====
-- tunnelstate/conntracker.go: what HasConnectedWith tells of the events.

use cloudflared.Common.{
  ℕ, ◌≡◌, refl, sym, ◌≢◌, ◌⊎◌, inl, inr, Bool, true, false, ◌&&◌, ◌||◌, List, [], ◌∷◌, arith,
}
use cloudflared.Common.Map.{nat_eq, lookup, insert}
use cloudflared.Connection.Protocol.{Protocol, http2, protocol_eq, protocol_eq_iff}
use cloudflared.Tracker.Conns.{
  Status, disconnected, connected, reconnecting, set_url, registering_tunnel, unregistering, Event,
  ConnectionInfo, Tracker, info_of, marked_down, on_status, on_tunnel_event, has_connected_with,
}
use cloudflared.Tracker.Ready.{run_events}

abbrev pub is_connect : Status → Bool
is_connect connected = true
is_connect _ = false

-- Whether one of the events is Connected with protocol p.

unfoldable pub connects : Protocol → List Event → Bool
connects p [] = false
connects p (c ∷ cs) = (is_connect c.event_type && protocol_eq c.protocol p) || connects p cs

has_connected_with-insert :
    (ct : Tracker) (i : ℕ) (ci : ConnectionInfo) (p : Protocol)
    → has_connected_with (insert i ci ct) p ≡ true
    → (ci.protocol ≡ p) ⊎ (has_connected_with ct p ≡ true)
unfolding has_connected_with insert
has_connected_with-insert [] i ci p e = ground (arith, protocol_eq_iff ci.protocol p)
has_connected_with-insert ((j, cj) ∷ ct) i ci p e =
    ground (arith, protocol_eq_iff ci.protocol p, has_connected_with-insert ct i ci p)

info_of-protocol :
    (ct : Tracker) (i : ℕ) (p : Protocol)
    → (info_of ct i).protocol ≡ p
    → (p ≡ http2) ⊎ (has_connected_with ct p ≡ true)
unfolding has_connected_with info_of lookup
info_of-protocol [] i p e = inl (sym e)
info_of-protocol ((j, cj) ∷ ct) i p e =
    ground (arith, protocol_eq_iff cj.protocol p, info_of-protocol ct i p)

marked_down-protocol :
    (ct : Tracker) (i : ℕ) (p : Protocol)
    → has_connected_with (marked_down ct i) p ≡ true
    → (p ≡ http2) ⊎ (has_connected_with ct p ≡ true)
unfolding marked_down
marked_down-protocol ct i p e =
    elim (has_connected_with-insert ct i (record (info_of ct i) { is_connected = false }) p e) [
      | inl same ↦ info_of-protocol ct i p same
      | inr had ↦ inr had
    ]

on_status-protocol :
    (ct : Tracker) (i : ℕ) (q : Protocol) (s : Status) (p : Protocol)
    → has_connected_with (on_status ct i q s) p ≡ true
    → (p ≡ http2) ⊎ (has_connected_with ct p ≡ true) ⊎ ((is_connect s && protocol_eq q p) ≡ true)
unfolding on_status
on_status-protocol ct i q connected p e =
    elim (has_connected_with-insert ct i (record { is_connected = true; protocol = q }) p e) [
      | inl same ↦ inr (inr ((protocol_eq_iff q p).1 same))
      | inr had ↦ inr (inl had)
    ]
on_status-protocol ct i q disconnected p e = ground (arith, marked_down-protocol ct i p e)
on_status-protocol ct i q reconnecting p e = ground (arith, marked_down-protocol ct i p e)
on_status-protocol ct i q registering_tunnel p e = ground (arith, marked_down-protocol ct i p e)
on_status-protocol ct i q unregistering p e = ground (arith, marked_down-protocol ct i p e)
on_status-protocol ct i q set_url p e = inr (inl e)

run_events-protocol :
    (ct : Tracker) (cs : List Event) (p : Protocol)
    → has_connected_with (run_events ct cs) p ≡ true
    → (p ≡ http2) ⊎ (has_connected_with ct p ≡ true) ⊎ (connects p cs ≡ true)
unfolding run_events connects on_tunnel_event
run_events-protocol ct [] p e = inr (inl e)
run_events-protocol ct (c ∷ cs) p e = ground (
  arith,
  run_events-protocol (on_tunnel_event ct c) cs p e,
  on_status-protocol ct c.index c.protocol c.event_type p,
)

-- A tracker that says it has connected with a protocol other than http2 has seen a Connected event of
-- that protocol.
pub has_connected_with_sound :
    (cs : List Event) (p : Protocol)
    → has_connected_with (run_events [] cs) p ≡ true
    → p ≢ http2
    → connects p cs ≡ true
unfolding has_connected_with
has_connected_with_sound cs p e other = ground (arith, run_events-protocol [] cs p e)

fresh_down :
    (i : ℕ) (q : Protocol) (s : Status)
    → is_connect s ≡ false
    → s ≢ set_url
    → has_connected_with (on_status [] i q s) http2 ≡ true
unfolding on_status marked_down info_of lookup insert has_connected_with
fresh_down i q disconnected e other = refl
fresh_down i q connected e other = cc
fresh_down i q reconnecting e other = refl
fresh_down i q set_url e other = elim (other refl) [ ]
fresh_down i q registering_tunnel e other = refl
fresh_down i q unregistering e other = refl

-- One event of a connection that ends or is about to register, the first of all, makes the tracker say
-- that it has connected with http2, though no Connected event has been seen.
pub has_connected_with_zero :
    (c : Event)
    → is_connect c.event_type ≡ false
    → c.event_type ≢ set_url
    → (has_connected_with (on_tunnel_event [] c) http2 ≡ true) × (connects http2 (c ∷ []) ≡ false)
unfolding on_tunnel_event connects
has_connected_with_zero c down other =
    (fresh_down c.index c.protocol c.event_type down other, ground arith)
