-- ===== src/Supervisor/Tests.antt =====
-- The fallback theorems at small runs.

use cloudflared.Common.{
  ltb, if◌then◌else◌, length, ℕ, ◌+◌, ◌<◌, ◌≡◌, refl, inr, true, false, Option, none, some, List,
  [], ◌∷◌, arith,
}
use cloudflared.Supervisor.Endings.{HasEnded, ended_after}
use cloudflared.Supervisor.Tokens.{refresh_all, IsShort, reconnect_token-refresh_all}
use cloudflared.Supervisor.Reconnect.{
  auth_success, auth_unknown, new_credential_manager, reconnect_token, Answered, auth_error,
  answers, Moment,
}
use cloudflared.Common.Map.{nat_eq, insert, erase}
use cloudflared.Retry.Backoff.{
  BackoffHandler, shift_left, int63n, base_or_second, reset_if_due, draw_timer,
  backoff_timer_after_reset, backoff_timer, reached_max_retries,
}
use cloudflared.Supervisor.Run.{
  Loop, no_error, other_error, continues, hangs, new_connected_tunnel_signal, start_tunnel,
  wait_for_next_tunnel, ensure_timer, on_failure, remove, on_tunnel_error, on_backoff_timer, Ready,
  done, tunnel_error, step, first_reports, start_others, no_tunnels, initial,
}
use cloudflared.Supervisor.Places.{times, places, IsConserved, IsSound}
use cloudflared.Supervisor.Conservation.{step-IsSound}
use cloudflared.Supervisor.Life.{
  start, then_step, initial-IsConserved, run_conserves, first_report_hangs,
}
use cloudflared.Connection.Protocol.{http2, quic}
use cloudflared.Connection.Selector.{default, current, selector_fallback}
use cloudflared.Supervisor.Errors.{
  EdgeError, idle_timeout, dial, edge_quic_dial, plain, wrapped, is_quic_broken,
}
use cloudflared.Supervisor.Fallback.{
  ProtocolFallback, Attempt, select_next_protocol, Turn, end_serves,
}
use cloudflared.Supervisor.Switching.{select_next_protocol_stops, fallback_is_final}

abbrev on_quic : ProtocolFallback
on_quic = record {
  backoff_handler = record {
    max_retries = 5;
    retry_forever = true;
    base_time = 0;
    retries = 1;
    reset_deadline = none;
  };
  protocol = quic;
  in_fallback = false;
}

abbrev blocked_udp : Attempt
blocked_udp = record { cause = wrapped idle_timeout; not_permitted = false; now = 7; answer = none }

abbrev fallen : ProtocolFallback
fallen = record {
  backoff_handler = record {
    max_retries = 5;
    retry_forever = true;
    base_time = 0;
    retries = 1;
    reset_deadline = some 7;
  };
  protocol = http2;
  in_fallback = true;
}

select_next_protocol_stops_example :
    select_next_protocol fallen (default quic) blocked_udp ≡ some (fallen, default quic, false)
unfolding selector_fallback is_quic_broken
select_next_protocol_stops_example =
    (select_next_protocol_stops fallen (default quic) blocked_udp).0 (inr (refl, refl)) (inr refl)

-- A turn in fallback after which selectNextProtocol says to stop
abbrev another_turn : Turn
another_turn = record {
  selector = default quic;
  canceled = false;
  now = 9;
  draw = 4;
  timer_wins = true;
  should_fall_back = true;
  connected_with = λ p. false;
  asked_at = 10;
  answer = none;
  attempt = blocked_udp;
}

fallback_is_final_example :
    (last : ProtocolFallback) × (end_serves fallen (another_turn ∷ another_turn ∷ []) ≡ some last)
    × (last.in_fallback ≡ true)
    × (last.protocol ≡ http2)
unfolding select_next_protocol selector_fallback is_quic_broken reached_max_retries base_or_second
    current
fallback_is_final_example =
    fallback_is_final on_quic (default quic) blocked_udp fallen (default quic) true
      (another_turn ∷ another_turn ∷ []) refl refl refl
      (record { counted = omega arith; some_time = omega arith; fits = omega arith })
      ((default quic, quic, refl), ((default quic, quic, refl), tt))

-- Two connections take turns; connection 1 has had two errors, with at most two address retries.
abbrev turns : List (ℕ × Option EdgeError)
turns = (1, some dial) ∷ (2, some dial) ∷ (1, some plain) ∷ (1, some (edge_quic_dial plain)) ∷ []

abbrev patient_backoff : BackoffHandler
patient_backoff = record {
  max_retries = 5;
  retry_forever = true;
  base_time = 10;
  retries = 0;
  reset_deadline = none;
}

abbrev three : Loop
three = start_others (record (no_tunnels patient_backoff 3) { running = 0 ∷ [] }) 1 2

-- Tunnel 1 fails and waits; the timer fires; it runs again.
abbrev after_failure : Loop
after_failure = record three {
  tunnels_active = 2;
  tunnels_waiting = 1 ∷ [];
  backoff_handler = record patient_backoff { retries = 1 };
  timer_set = true;
  tunnels_connecting = (2, 1) ∷ [];
  next_connected_index = 2;
  next_connected_signal = some 1;
  running = 2 ∷ 0 ∷ [];
}

abbrev one_fails : Ready
one_fails = tunnel_error 1 other_error true 100 7 0

fails : step three one_fails ≡ continues after_failure
unfolding step on_tunnel_error on_failure ensure_timer wait_for_next_tunnel remove start_others
    start_tunnel new_connected_tunnel_signal insert erase backoff_timer reset_if_due
    backoff_timer_after_reset draw_timer int63n shift_left base_or_second
fails = refl

three-IsConserved : IsConserved 3 three
unfolding initial
three-IsConserved = initial-IsConserved patient_backoff 3 three (omega arith) refl refl

step-IsSound_example :
    IsSound 3 three one_fails (step three one_fails)
    × HasEnded (ended_after three one_fails) (step three one_fails)
unfolding start_others start_tunnel
step-IsSound_example = step-IsSound 3 three one_fails three-IsConserved (omega arith)

run_conserves_example :
    ((i : ℕ) → places i after_failure ≡ (if ltb i 3 then 1 else 0))
    × (after_failure.tunnels_active ≡ length after_failure.running)
    × ((i : ℕ)
        → i < 3
        → times i (on_backoff_timer after_failure).running + times i after_failure.ended ≡ 1)
unfolding start_others start_tunnel initial
run_conserves_example =
    run_conserves patient_backoff 3 three after_failure (omega arith) refl refl
      (then_step three after_failure one_fails start (omega arith) fails)

first_report_hangs_example :
    (l : Loop) × (initial patient_backoff 3 (first_reports no_error) ≡ some l)
    × (l.running ≡ [])
    × (l.tunnels_active ≡ 3)
    × (step l done ≡ hangs)
first_report_hangs_example = first_report_hangs patient_backoff 3 (omega arith)

abbrev refreshes : List (Moment × Answered)
refreshes =
    (record { done = false; now = 5; draw = 3 }, answers (some (auth_success (some (7 ∷ [])) 1)))
    ∷ (record { done = false; now = 9; draw = 1 }, auth_error)
    ∷ (record { done = false; now = 9; draw = 1 }, answers (some (auth_unknown (8 ∷ []) 1)))
    ∷ []

patient_backoff-IsShort : IsShort patient_backoff
unfolding base_or_second
patient_backoff-IsShort = record {
  counted = omega arith;
  some_time = omega arith;
  fits = omega arith;
}

reconnect_token-refresh_all_example :
    reconnect_token (refresh_all new_credential_manager patient_backoff refreshes).0 ≡ some (7 ∷ [])
reconnect_token-refresh_all_example =
    reconnect_token-refresh_all new_credential_manager patient_backoff refreshes
      patient_backoff-IsShort
