-- ===== src/Supervisor/Run.antt =====
-- supervisor/supervisor.go: Run and initialize, as steps of the loop on what its `select` meets. The
-- tunnels that run in goroutines are kept by index; channels are numbered as they are made.

use cloudflared.Common.{
  ltb, leb, ◌==◌, if◌then◌else◌, length, get_elem?, ℕ, zero, suc, ◌+◌, ◌-◌, ◌%◌, Bool, true, false,
  ◌&&◌, not, Option, none, some, List, [], ◌∷◌, ◌++◌,
}
use cloudflared.Common.Map.{nat_eq, insert, erase}
use cloudflared.Retry.Backoff.{BackoffHandler, nil, after, panics, backoff_timer, set_grace_period}

pub record Loop : Type 0 where
  pub tunnels_active : ℕ
  pub tunnels_waiting : List ℕ
  pub backoff_handler : BackoffHandler
  -- Whether backoffTimer is not nil.
  pub timer_set : Bool
  pub shutting_down : Bool
  pub tunnels_connecting : List (ℕ × ℕ)
  pub next_connected_index : ℕ
  pub next_connected_signal : Option ℕ
  pub channels_made : ℕ
  -- The tunnels that were started and have not sent to tunnelErrors, and those that will not be
  -- started again.
  pub running : List ℕ
  pub ended : List ℕ

-- `tunnelError.err`: nil, a ReconnectSignal, or another error.
pub data Cause : Type 0 where
  no_error reconnect_signal other_error : Cause

pub data Next : Type 0 where
  continues : Loop → Next
  returns panicked hangs : Next

-- newConnectedTunnelSignal
unfoldable pub new_connected_tunnel_signal : Loop → ℕ → Loop
new_connected_tunnel_signal l index = record l {
  tunnels_connecting = insert index l.channels_made l.tunnels_connecting;
  next_connected_signal = some l.channels_made;
  next_connected_index = index;
  channels_made = l.channels_made + 1;
}

-- `go s.startTunnel(ctx, index, s.newConnectedTunnelSignal(index))`
unfoldable pub start_tunnel : Loop → ℕ → Loop
unfolding new_connected_tunnel_signal
start_tunnel l index =
    let l' = new_connected_tunnel_signal l index in record l' { running = index ∷ l'.running }

-- waitForNextTunnel; `pick` says which entry the iteration over the map meets first.
unfoldable pub wait_for_next_tunnel : Loop → ℕ → ℕ → Loop × Bool
wait_for_next_tunnel l index pick =
    let rest = erase index l.tunnels_connecting in
    elim (get_elem? rest (pick % length rest)) [
      | none ↦ (record l { tunnels_connecting = rest; next_connected_signal = none }, false)
      | some (k, v) ↦ (
        record l {
          tunnels_connecting = rest;
          next_connected_index = k;
          next_connected_signal = some v;
        },
        true,
      )
    ]

-- `if backoffTimer == nil { backoffTimer = backoff.BackoffTimer() }`
unfoldable pub ensure_timer : Loop → ℕ → ℕ → Next
ensure_timer l now draw =
    if l.timer_set
    then continues l
    else let (b, timer) = backoff_timer l.backoff_handler now draw in
      elim timer [
        | nil ↦ continues (record l { backoff_handler = b })
        | after wait ↦ continues (record l { backoff_handler = b; timer_set = true })
        | panics ↦ panicked
      ]

-- An error while not shutting down; `retry` is the answer of GetMaxBackoffDuration of the tunnel.
unfoldable pub on_failure : Loop → ℕ → Cause → Bool → ℕ → ℕ → ℕ → Next
unfolding start_tunnel
on_failure l index reconnect_signal retry now draw pick =
    continues (record (start_tunnel l index) { tunnels_active = l.tunnels_active + 1 })
on_failure l index _ retry now draw pick =
    if not retry
    then continues (record l { ended = index ∷ l.ended })
    else ensure_timer
        (wait_for_next_tunnel (record l { tunnels_waiting = l.tunnels_waiting ++ index ∷ [] }) index
          pick).0
        now draw

abbrev pub is_error : Cause → Bool
is_error no_error = false
is_error reconnect_signal = true
is_error other_error = true

unfoldable pub remove : ℕ → List ℕ → List ℕ
remove i [] = []
remove i (j ∷ js) = if j == i then js else j ∷ remove i js

-- `case tunnelError := <-s.tunnelErrors`
unfoldable pub on_tunnel_error : Loop → ℕ → Cause → Bool → ℕ → ℕ → ℕ → Next
on_tunnel_error l index cause retry now draw pick =
    let l' = record l { tunnels_active = l.tunnels_active - 1; running = remove index l.running } in
    if is_error cause && not l.shutting_down
    then on_failure l' index cause retry now draw pick
    else if l'.tunnels_active == 0
    then returns
    else continues (record l' { ended = index ∷ l.ended })

unfoldable pub start_all : Loop → List ℕ → Loop
start_all l [] = l
start_all l (index ∷ indices) = start_all (start_tunnel l index) indices

-- `case <-backoffTimer`
unfoldable pub on_backoff_timer : Loop → Loop
on_backoff_timer l =
    let l' = start_all (record l { timer_set = false }) l.tunnels_waiting in
    record l' { tunnels_active = l.tunnels_active + length l.tunnels_waiting; tunnels_waiting = [] }

abbrev pub is_nil : List ℕ → Bool
is_nil [] = true
is_nil (i ∷ is) = false

-- `case <-s.nextConnectedSignal`
unfoldable pub on_connected : Loop → ℕ → ℕ → ℕ → Next
on_connected l now draw pick =
    let (l', outstanding) = wait_for_next_tunnel l l.next_connected_index pick in
    if not outstanding && is_nil l'.tunnels_waiting
    then elim (set_grace_period l'.backoff_handler now draw) [
      | none ↦ panicked
      | some b ↦ continues (record l' { backoff_handler = b })
    ]
    else continues l'

-- `case <-ctx.Done()`: the reports of tunnelsActive tunnels are received, if as many still run.
unfoldable pub on_done : Loop → Next
on_done l = if leb l.tunnels_active (length l.running) then returns else hangs

pub data Ready : Type 0 where
  done : Ready
  tunnel_error : (index : ℕ) (cause : Cause) (retry : Bool) (now draw pick : ℕ) → Ready
  timer_fires graceful_shutdown : Ready
  connected_signal : (now draw pick : ℕ) → Ready

unfoldable pub step : Loop → Ready → Next
step l done = on_done l
step l (tunnel_error index cause retry now draw pick) =
    on_tunnel_error l index cause retry now draw pick
step l timer_fires = continues (on_backoff_timer l)
step l (connected_signal now draw pick) = on_connected l now draw pick
step l graceful_shutdown = continues (record l { shutting_down = true })

-- What `initialize` waits for once the first tunnel is started.
pub data First : Type 0 where
  first_connects canceled early_shutdown : First
  first_reports : Cause → First

-- `for i := 1; i < s.config.HAConnections; i++`, with n turns left
unfoldable pub start_others : Loop → ℕ → ℕ → Loop
start_others l i zero = l
start_others l i (suc n) = start_others (start_tunnel l i) (i + 1) n

-- `s.config.HAConnections` after its clipping
unfoldable pub ha_connections : ℕ → ℕ → ℕ
ha_connections requested available = if ltb available requested then available else requested

-- The variables of the loop with ha connections, before any tunnel is started.
abbrev pub no_tunnels : BackoffHandler → ℕ → Loop
no_tunnels b ha = record {
  tunnels_active = ha;
  tunnels_waiting = [];
  backoff_handler = b;
  timer_set = false;
  shutting_down = false;
  tunnels_connecting = [];
  next_connected_index = 0;
  next_connected_signal = none;
  channels_made = 0;
  running = [];
  ended = [];
}

-- The loop that Run enters after `initialize`, unless that gives an error.
unfoldable pub initial : BackoffHandler → ℕ → First → Option Loop
initial b ha first_connects =
    some (start_others (record (no_tunnels b ha) { running = 0 ∷ [] }) 1 (ha - 1))
initial b ha canceled = none
initial b ha early_shutdown = none
initial b ha (first_reports c) = if is_error c then none else some (no_tunnels b ha)
