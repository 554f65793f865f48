-- ===== src/Supervisor/Endings.antt =====
-- supervisor/supervisor.go: which events of the loop of Run end a connection.

-- The tunnels that an outcome has ended
use cloudflared.Common.{
  leb, ◌==◌, if◌then◌else◌, Bool-cases, Option-cases, length, ℕ, ◌-◌, ◌≡◌, refl, subst, inl, inr,
  Bool, true, false, ◌&&◌, ◌||◌, not, List, [], ◌∷◌, ◌++◌, arith,
}
use cloudflared.Retry.Backoff.{
  BackoffHandler, Timer, nil, after, panics, backoff_timer, set_grace_period,
}
use cloudflared.Supervisor.Run.{
  Loop, Cause, no_error, reconnect_signal, other_error, Next, continues, returns, panicked, hangs,
  new_connected_tunnel_signal, start_tunnel, wait_for_next_tunnel, ensure_timer, on_failure,
  is_error, remove, on_tunnel_error, start_all, on_backoff_timer, is_nil, on_connected, on_done,
  Ready, done, tunnel_error, timer_fires, graceful_shutdown, connected_signal, step,
}
use cloudflared.Supervisor.Places.{wait_for_next_tunnel-SameTunnels}

abbrev pub HasEnded : List ℕ → Next → Type 0
HasEnded is (continues l) = l.ended ≡ is
HasEnded is returns = Unit
HasEnded is panicked = Unit
HasEnded is hangs = Unit

abbrev pub is_reconnect : Cause → Bool
is_reconnect no_error = false
is_reconnect reconnect_signal = true
is_reconnect other_error = false

-- A report after which the tunnel is started again, now or by the timer: an error while not shutting
-- down, which is a reconnect signal or one that the tunnel's own handler lets it retry.
abbrev pub starts_again : Loop → Cause → Bool → Bool
starts_again l cause retry =
    if is_error cause && not l.shutting_down then is_reconnect cause || retry else false

abbrev pub ended_after : Loop → Ready → List ℕ
ended_after l (tunnel_error index cause retry now draw pick) =
    if starts_again l cause retry then l.ended else index ∷ l.ended
ended_after l done = l.ended
ended_after l timer_fires = l.ended
ended_after l graceful_shutdown = l.ended
ended_after l (connected_signal now draw pick) = l.ended

timer_handled :
    (l : Loop) (b : BackoffHandler) (t : Timer)
    → HasEnded l.ended (elim t as (λ _. Next) [
      | nil ↦ continues (record l { backoff_handler = b })
      | after wait ↦ continues (record l { backoff_handler = b; timer_set = true })
      | panics ↦ panicked
    ])
timer_handled l b nil = refl
timer_handled l b (after wait) = refl
timer_handled l b panics = tt

ensure_timer-HasEnded : (l : Loop) (now draw : ℕ) → HasEnded l.ended (ensure_timer l now draw)
unfolding ensure_timer
ensure_timer-HasEnded l now draw = elim (Bool-cases l.timer_set) [
  | inl e ↦ rw e refl
  | inr e ↦ rw e (
      timer_handled l (backoff_timer l.backoff_handler now draw).0
        (backoff_timer l.backoff_handler now draw).1)
]

failure_ends :
    (l : Loop) (index : ℕ) (c : Cause) (retry : Bool) (now draw pick : ℕ)
    → is_error c ≡ true
    → HasEnded
        (if is_reconnect c || retry then l.ended else index ∷ l.ended)
        (on_failure l index c retry now draw pick)
unfolding on_failure start_tunnel new_connected_tunnel_signal
failure_ends l index no_error retry now draw pick e = cc
failure_ends l index reconnect_signal retry now draw pick e = refl
failure_ends l index other_error false now draw pick e = refl
failure_ends l index other_error true now draw pick e =
    let l1 : Loop = record l { tunnels_waiting = l.tunnels_waiting ++ index ∷ [] } in
    let l2 : Loop = (wait_for_next_tunnel l1 index pick).0 in
    let same : l2.ended ≡ l.ended = (wait_for_next_tunnel-SameTunnels l1 index pick).0.2 in
    subst (λ (is : List ℕ). HasEnded is (ensure_timer l2 now draw)) same
      (ensure_timer-HasEnded l2 now draw)

report_ends :
    (l : Loop) (index : ℕ) (c : Cause) (retry : Bool) (now draw pick : ℕ)
    → HasEnded
        (ended_after l (tunnel_error index c retry now draw pick))
        (on_tunnel_error l index c retry now draw pick)
unfolding on_tunnel_error
report_ends l index c retry now draw pick =
    let l' : Loop = record l {
      tunnels_active = l.tunnels_active - 1;
      running = remove index l.running;
    } in
    elim (Bool-cases (is_error c && not l.shutting_down)) [
      | inl e ↦ rw e (failure_ends l' index c retry now draw pick (ground arith))
      | inr e ↦ elim (Bool-cases (l.tunnels_active - 1 == 0)) [
        | inl last ↦ rw (e, last) tt
        | inr more ↦ rw (e, more) refl
      ]
    ]

pub start_all-ended : (l : Loop) (js : List ℕ) → (start_all l js).ended ≡ l.ended
unfolding start_all start_tunnel new_connected_tunnel_signal
start_all-ended l [] = refl
start_all-ended l (j ∷ js) = start_all-ended (start_tunnel l j) js

connected_ends : (l : Loop) (now draw pick : ℕ) → HasEnded l.ended (on_connected l now draw pick)
unfolding on_connected
connected_ends l now draw pick =
    let l' : Loop = (wait_for_next_tunnel l l.next_connected_index pick).0 in
    let outstanding : Bool = (wait_for_next_tunnel l l.next_connected_index pick).1 in
    let same : l'.ended ≡ l.ended =
      (wait_for_next_tunnel-SameTunnels l l.next_connected_index pick).0.2 in
    elim (Bool-cases (not outstanding && is_nil l'.tunnels_waiting)) [
      | inr e ↦ rw e same
      | inl e ↦ elim (Option-cases (set_grace_period l'.backoff_handler now draw)) [
        | inl p ↦ rw (e, p) tt
        | inr (b, p) ↦ rw (e, p) same
      ]
    ]

-- A tunnel ends only by a report after which it is not started again.
pub step-HasEnded : (l : Loop) (e : Ready) → HasEnded (ended_after l e) (step l e)
unfolding step on_done on_backoff_timer
step-HasEnded l done = elim (Bool-cases (leb l.tunnels_active (length l.running))) [
  | inl e ↦ rw e tt
  | inr e ↦ rw e tt
]
step-HasEnded l (tunnel_error index cause retry now draw pick) =
    report_ends l index cause retry now draw pick
step-HasEnded l timer_fires = start_all-ended (record l { timer_set = false }) l.tunnels_waiting
step-HasEnded l graceful_shutdown = refl
step-HasEnded l (connected_signal now draw pick) = connected_ends l now draw pick
