-- ===== src/Supervisor/Conservation.antt =====
-- supervisor/supervisor.go: no connection is lost or started twice by the loop of Run.

use cloudflared.Common.{
  ltb, leb, ◌==◌, if◌then◌else◌, Bool-cases, length, ℕ, ◌+◌, ◌-◌, ◌≤◌, ◌≡◌, sym, ◌∙◌, subst, ◌⊎◌,
  inl, inr, Bool, true, false, ◌&&◌, not, none, some, [], ◌∷◌, ◌++◌, arith,
}
use cloudflared.Supervisor.Endings.{HasEnded, ended_after, step-HasEnded}
use cloudflared.Retry.Backoff.{BackoffHandler, int63n, set_grace_period}
use cloudflared.Supervisor.Run.{
  Loop, Cause, no_error, reconnect_signal, other_error, continues, panicked,
  new_connected_tunnel_signal, start_tunnel, wait_for_next_tunnel, on_failure, is_error, remove,
  on_tunnel_error, on_connected, on_done, Ready, done, tunnel_error, timer_fires, graceful_shutdown,
  connected_signal, step,
}
use cloudflared.Supervisor.Places.{
  times, places, times-append, times-remove, length-remove, IsConserved, IsPossible, IsSound,
  SameTunnels, same-IsConserved, wait_for_next_tunnel-SameTunnels, IsCounted, ensure_timer-IsSound,
  on_backoff_timer-IsConserved,
}

removed : Loop → ℕ → Loop
removed l index = record l {
  tunnels_active = l.tunnels_active - 1;
  running = remove index l.running;
}

removed-places :
    (n : ℕ) (l : Loop) (index : ℕ)
    → IsConserved n l
    → 1 ≤ times index l.running
    → ((i : ℕ)
        → places i (removed l index) + (if index == i then 1 else 0) ≡ (if ltb i n then 1 else 0))
      × ((removed l index).tunnels_active ≡ length (removed l index).running)
      × (1 ≤ l.tunnels_active)
unfolding removed
removed-places n l index h there =
    let shorter = length-remove index l.running there in
    (
      (λ i. ground (arith, h.one_place i, times-remove i index l.running there)),
      omega (arith, h.exact, shorter),
      omega (arith, h.exact, shorter),
    )

same-IsCounted : (n : ℕ) (l l' : Loop) → SameTunnels l l' → IsCounted n l → IsCounted n l'
same-IsCounted n l l' (r, w, e, a, f) h = record {
  one_place = λ i. rw (r, w, e) (h.one_place i);
  exact = rw (r, a) h.exact;
  forever = f ∙ h.forever;
}

-- A reported tunnel that waits for the timer.
waiting-IsCounted :
    (n : ℕ) (l : Loop) (index : ℕ)
    → IsConserved n l
    → 1 ≤ times index l.running
    → IsCounted n (record (removed l index) { tunnels_waiting = l.tunnels_waiting ++ index ∷ [] })
unfolding removed
waiting-IsCounted n l index h there =
    let (p, x, a) = removed-places n l index h there in
    record {
      one_place = λ i. ground (arith, p i, times-append i l.tunnels_waiting (index ∷ []));
      exact = x;
      forever = h.forever;
    }

failed-IsSound :
    (n : ℕ) (l : Loop) (e : Ready) (index now draw pick : ℕ)
    → IsConserved n l
    → 1 ≤ times index l.running
    → IsSound n l e (on_failure (removed l index) index other_error true now draw pick)
unfolding on_failure removed
failed-IsSound n l e index now draw pick h there =
    let l1 = record (removed l index) { tunnels_waiting = l.tunnels_waiting ++ index ∷ [] } in
    ensure_timer-IsSound n l (wait_for_next_tunnel l1 index pick).0 e now draw (
      same-IsCounted n l1 (wait_for_next_tunnel l1 index pick).0
        (wait_for_next_tunnel-SameTunnels l1 index pick).0 (waiting-IsCounted n l index h there))

reconnected-IsSound :
    (n : ℕ) (l : Loop) (e : Ready) (index : ℕ) (retry : Bool) (now draw pick : ℕ)
    → IsConserved n l
    → 1 ≤ times index l.running
    → IsSound n l e (on_failure (removed l index) index reconnect_signal retry now draw pick)
unfolding on_failure start_tunnel new_connected_tunnel_signal removed
reconnected-IsSound n l e index retry now draw pick h there =
    let (p, x, a) = removed-places n l index h there in
    record {
      one_place = λ i. ground (arith, p i);
      exact = omega (arith, x);
      forever = h.forever;
      timed = h.timed;
    }

ended-IsConserved :
    (n : ℕ) (l : Loop) (index : ℕ)
    → IsConserved n l
    → 1 ≤ times index l.running
    → IsConserved n (record (removed l index) { ended = index ∷ l.ended })
unfolding removed
ended-IsConserved n l index h there =
    let (p, x, a) = removed-places n l index h there in
    record { one_place = λ i. ground (arith, p i); exact = x; forever = h.forever; timed = h.timed }

on_failure-IsSound :
    (n : ℕ) (l : Loop) (e : Ready) (index : ℕ) (c : Cause) (retry : Bool) (now draw pick : ℕ)
    → is_error c ≡ true
    → IsConserved n l
    → 1 ≤ times index l.running
    → IsSound n l e (on_failure (removed l index) index c retry now draw pick)
on_failure-IsSound n l e index no_error retry now draw pick k h there = cc
on_failure-IsSound n l e index reconnect_signal retry now draw pick k h there =
    reconnected-IsSound n l e index retry now draw pick h there
on_failure-IsSound n l e index other_error true now draw pick k h there =
    failed-IsSound n l e index now draw pick h there
on_failure-IsSound n l e index other_error false now draw pick k h there =
    unfold on_failure removed in ended-IsConserved n l index h there

on_tunnel_error-IsSound :
    (n : ℕ) (l : Loop) (index : ℕ) (c : Cause) (retry : Bool) (now draw pick : ℕ)
    → IsConserved n l
    → 1 ≤ times index l.running
    → IsSound n l
        (tunnel_error index c retry now draw pick)
        (on_tunnel_error l index c retry now draw pick)
unfolding on_tunnel_error removed
on_tunnel_error-IsSound n l index c retry now draw pick h there =
    let (p, x, a) = removed-places n l index h there in
    elim (Bool-cases (is_error c && not l.shutting_down)) [
      | inl e ↦ rw e (
          on_failure-IsSound n l (tunnel_error index c retry now draw pick) index c retry now draw
            pick (ground arith) h there)
      | inr e ↦ elim (Bool-cases (l.tunnels_active - 1 == 0)) [
        | inl last ↦ rw (e, last) (ground (arith, h.exact, a))
        | inr more ↦ rw (e, more) (ended-IsConserved n l index h there)
      ]
    ]

set_grace_period-forever :
    (b : BackoffHandler) (now draw : ℕ)
    → (set_grace_period b now draw ≡ none)
      ⊎ ((b' : BackoffHandler) × (b'.retry_forever ≡ b.retry_forever)
          × (set_grace_period b now draw ≡ some b'))
unfolding set_grace_period int63n
set_grace_period-forever b now draw = ground arith

on_connected-cases :
    (l : Loop) (now draw pick : ℕ)
    → let l' = (wait_for_next_tunnel l l.next_connected_index pick).0 in
      (on_connected l now draw pick ≡ panicked)
      ⊎ (on_connected l now draw pick ≡ continues l')
      ⊎ ((b : BackoffHandler) × (b.retry_forever ≡ l'.backoff_handler.retry_forever)
          × (on_connected l now draw pick ≡ continues (record l' { backoff_handler = b })))
unfolding on_connected
on_connected-cases l now draw pick =
    let (l', outstanding) = wait_for_next_tunnel l l.next_connected_index pick in
    ground (arith, set_grace_period-forever l'.backoff_handler now draw)

on_connected-IsSound :
    (n : ℕ) (l : Loop) (e : Ready) (now draw pick : ℕ)
    → IsConserved n l
    → IsSound n l e (on_connected l now draw pick)
on_connected-IsSound n l e now draw pick h =
    let l' = (wait_for_next_tunnel l l.next_connected_index pick).0 in
    let (same, timer, handler) = wait_for_next_tunnel-SameTunnels l l.next_connected_index pick in
    let h' : IsConserved n l' = same-IsConserved n l l' same (inl timer) h in
    elim (on_connected-cases l now draw pick) [
      | inl p ↦ subst (IsSound n l e) (sym p) tt
      | inr (inl p) ↦ subst (IsSound n l e) (sym p) h'
      | inr (inr (b, f, p)) ↦ subst (IsSound n l e) (sym p) (record {
        one_place = h'.one_place;
        exact = h'.exact;
        forever = f ∙ h'.forever;
        timed = h'.timed;
      })
    ]

step_conserves :
    (n : ℕ) (l : Loop) (e : Ready) → IsConserved n l → IsPossible l e → IsSound n l e (step l e)
unfolding step on_done
step_conserves n l done h possible =
    let enough : leb l.tunnels_active (length l.running) ≡ true = ground (arith, h.exact) in
    rw enough tt
step_conserves n l (tunnel_error index c retry now draw pick) h there =
    on_tunnel_error-IsSound n l index c retry now draw pick h there
step_conserves n l timer_fires h possible = on_backoff_timer-IsConserved n l h
step_conserves n l graceful_shutdown h possible = record {
  one_place = h.one_place;
  exact = h.exact;
  forever = h.forever;
  timed = h.timed;
}
step_conserves n l (connected_signal now draw pick) h possible =
    on_connected-IsSound n l (connected_signal now draw pick) now draw pick h

-- From any loop in which each of n connections is in one place, every event that can happen leads to
-- such a loop again, unless the random draw panics: each connection is running, waiting or ended, and
-- only one of these, tunnelsActive counts the running tunnels, and while a connection waits the timer
-- is set. A connection ends by no event but its own report, and by this only if it has no error, the
-- loop is shutting down, or its own handler does not let it retry an error that is no reconnect
-- signal. Run returns only on the end of its context or on the report of the only running tunnel, and
-- the end of the context never leaves it hanging.
pub step-IsSound :
    (n : ℕ) (l : Loop) (e : Ready)
    → IsConserved n l
    → IsPossible l e
    → IsSound n l e (step l e) × HasEnded (ended_after l e) (step l e)
step-IsSound n l e h possible = (step_conserves n l e h possible, step-HasEnded l e)
