-- ===== src/Sessions/Tests.antt =====
-- Two sessions, one of which is registered again under its id.

use cloudflared.Common.{◌+◌, ◌≤◌, ◌≡◌, refl, true, false, some, List, [], ◌∷◌}
use cloudflared.Common.Map.{nat_eq, lookup, insert, erase}
use cloudflared.Common.Tally.{times}
use cloudflared.Sessions.Manager.{
  new_manager, register_session, unregister_session, send_to_session, shutdown_sessions,
  dst_to_transport, mark_ended, read_turn, Event, registration, unregistration, datagram,
  context_done, read_by, serve_turn, manager_step, manager_run,
}
use cloudflared.Sessions.Closing.{manager_run-sends}
use cloudflared.Sessions.Idle.{tick, active, idle_at, wait_loop, wait_for_close_condition}

abbrev calls : List Event
calls =
    registration 5
    ∷ registration 6
    ∷ datagram 5 (1 ∷ [])
    ∷ registration 5
    ∷ datagram 5 (2 ∷ [])
    ∷ unregistration 6
    ∷ unregistration 6
    ∷ read_by 1 0 true false
    ∷ read_by 1 0 true false
    ∷ read_by 2 7 true true
    ∷ context_done
    ∷ unregistration 5
    ∷ []

-- The first session of id 5 is never closed.
closed_sessions : (manager_run new_manager calls).closes ≡ 2 ∷ 1 ∷ []
unfolding manager_step serve_turn register_session unregister_session send_to_session
    shutdown_sessions read_turn dst_to_transport mark_ended new_manager lookup insert erase
closed_sessions = refl

idled :
    wait_for_close_condition 80 100 (tick 110 ∷ active 115 ∷ tick 190 ∷ tick 200 ∷ [])
    ≡ some (idle_at 200)
unfolding wait_for_close_condition wait_loop
idled = refl

manager_run-sends_example :
    (times 1 (manager_run new_manager calls).closes ≤ 1)
    × (times 1 (manager_run new_manager calls).closes
          + times 1 (manager_run new_manager calls).ended
        ≤ 2)
manager_run-sends_example = manager_run-sends calls 1
