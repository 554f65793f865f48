-- ===== src/Sessions/Closing.antt =====
-- datagramsession/manager.go: no send on a session's closeChan ever waits.

use cloudflared.Common.{
  if◌then◌else◌, Bool-cases, Option-cases, ℕ, ◌+◌, ◌≤◌, ◌≡◌, refl, sym, subst, ◌⊎◌, inl, inr, Bool,
  false, none, some, List, [], ◌∷◌, arith,
}
use cloudflared.Common.Bytes.{Bytes, bytes_eq_inst}
use cloudflared.Common.Map.{nat_eq, lookup, erase}
use cloudflared.Common.Tally.{times, values, times-append, times-insert, times-erase}
use cloudflared.Sessions.Manager.{
  Manager, new_manager, register_session, unregister_session, send_to_session, shutdown_sessions,
  dst_to_transport, mark_ended, is_in, read_turn, Event, registration, unregistration, datagram,
  context_done, read_by, serve_turn, manager_step, manager_run,
}

pub record IsOrderly (m : Manager) : Type 0 where
  pub once : (s : ℕ) → times s m.closes ≤ 1
  pub tracked : m.stopped ≡ false → (s : ℕ) → times s m.closes + times s (values m.sessions) ≤ 1
  pub born : (s : ℕ) → m.fresh ≤ s → times s m.closes + times s (values m.sessions) ≡ 0
  pub reads_once : (s : ℕ) → times s m.ended ≤ 1

new_manager-IsOrderly : IsOrderly new_manager
unfolding new_manager
new_manager-IsOrderly = record {
  once = λ s. omega arith;
  tracked = λ e s. omega arith;
  born = λ s h. omega arith;
  reads_once = λ s. omega arith;
}

register_session-IsOrderly :
    (m : Manager) (id : ℕ) → m.stopped ≡ false → IsOrderly m → IsOrderly (register_session m id)
unfolding register_session
register_session-IsOrderly m id on o = record {
  once = o.once;
  tracked = λ e s. ground (arith, times-insert s id m.fresh m.sessions, o.tracked on s, o.born s);
  born = λ s h. ground (arith, times-insert s id m.fresh m.sessions, o.born s);
  reads_once = o.reads_once;
}

closed-IsOrderly :
    (m : Manager) (id t : ℕ)
    → lookup id m.sessions ≡ some t
    → m.stopped ≡ false
    → IsOrderly m
    → IsOrderly (record m { sessions = erase id m.sessions; closes = t ∷ m.closes })
closed-IsOrderly m id t e on o = record {
  once = λ s. omega (arith, times-erase s id t m.sessions e, o.tracked on s);
  tracked = λ k s. omega (arith, times-erase s id t m.sessions e, o.tracked on s);
  born = λ s h. omega (arith, times-erase s id t m.sessions e, o.born s h);
  reads_once = o.reads_once;
}

unregister_none : (m : Manager) (id : ℕ) → lookup id m.sessions ≡ none → unregister_session m id ≡ m
unfolding unregister_session
unregister_none m id out = ground (arith, out)

unregister_some :
    (m : Manager) (id t : ℕ)
    → lookup id m.sessions ≡ some t
    → unregister_session m id ≡ record m { sessions = erase id m.sessions; closes = t ∷ m.closes }
unfolding unregister_session
unregister_some m id t there = ground (arith, there)

unregister_session-IsOrderly :
    (m : Manager) (id : ℕ) → m.stopped ≡ false → IsOrderly m → IsOrderly (unregister_session m id)
unregister_session-IsOrderly m id on o = elim (Option-cases (lookup id m.sessions)) [
  | inl out ↦ subst IsOrderly (sym (unregister_none m id out)) o
  | inr (t, there) ↦
      subst IsOrderly (sym (unregister_some m id t there)) (closed-IsOrderly m id t there on o)
]

shutdown_sessions-IsOrderly :
    (m : Manager) → m.stopped ≡ false → IsOrderly m → IsOrderly (shutdown_sessions m)
unfolding shutdown_sessions
shutdown_sessions-IsOrderly m on o = record {
  once = λ s. omega (arith, times-append s (values m.sessions) m.closes, o.tracked on s);
  tracked = λ e s. cc;
  born = λ s h. omega (arith, times-append s (values m.sessions) m.closes, o.born s h);
  reads_once = o.reads_once;
}

not_in : (s : ℕ) (ts : List ℕ) → is_in s ts ≡ false → times s ts ≡ 0
not_in s [] h = refl
not_in s (t ∷ ts) h = ground (arith, not_in s ts)

ended-IsOrderly :
    (m : Manager) (t : ℕ)
    → is_in t m.ended ≡ false
    → IsOrderly m
    → IsOrderly (record m { ended = t ∷ m.ended })
ended-IsOrderly m t fresh o = record {
  once = o.once;
  tracked = o.tracked;
  born = o.born;
  reads_once = λ s. ground (arith, not_in t m.ended fresh, o.reads_once s);
}

read_turn-cases :
    (m : Manager) (t n : ℕ) (r f : Bool)
    → (read_turn m t n r f ≡ m)
      ⊎ ((is_in t m.ended ≡ false) × (read_turn m t n r f ≡ record m { ended = t ∷ m.ended }))
unfolding read_turn dst_to_transport mark_ended
read_turn-cases m t n r f = ground arith

read_turn-IsOrderly :
    (m : Manager) (t n : ℕ) (r f : Bool) → IsOrderly m → IsOrderly (read_turn m t n r f)
read_turn-IsOrderly m t n r f o = elim (read_turn-cases m t n r f) [
  | inl same ↦ subst IsOrderly (sym same) o
  | inr (fresh, e) ↦ subst IsOrderly (sym e) (ended-IsOrderly m t fresh o)
]

delivered-IsOrderly :
    (m : Manager) (d : List (ℕ × Bytes)) → IsOrderly m → IsOrderly (record m { delivered = d })
delivered-IsOrderly m d o = record {
  once = o.once;
  tracked = o.tracked;
  born = o.born;
  reads_once = o.reads_once;
}

send_to_session-cases :
    (m : Manager) (id : ℕ) (p : Bytes)
    → (d : List (ℕ × Bytes)) × (send_to_session m id p ≡ record m { delivered = d })
send_to_session-cases m id p = elim (Option-cases (lookup id m.sessions)) [
  | inl out ↦ (m.delivered, unfold send_to_session in ground (arith, out))
  | inr (s, there) ↦ ((s, p) ∷ m.delivered, unfold send_to_session in ground (arith, there))
]

serve_turn-IsOrderly :
    (m : Manager) (e : Event) → m.stopped ≡ false → IsOrderly m → IsOrderly (serve_turn m e)
unfolding serve_turn
serve_turn-IsOrderly m (registration id) on o = register_session-IsOrderly m id on o
serve_turn-IsOrderly m (unregistration id) on o = unregister_session-IsOrderly m id on o
serve_turn-IsOrderly m (datagram id p) on o =
    let (d, e) = send_to_session-cases m id p in subst IsOrderly (sym e) (delivered-IsOrderly m d o)
serve_turn-IsOrderly m context_done on o = shutdown_sessions-IsOrderly m on o
serve_turn-IsOrderly m (read_by s n r f) on o = read_turn-IsOrderly m s n r f o

stopped-cases :
    (m : Manager) (e : Event)
    → ((if m.stopped then m else serve_turn m e) ≡ m)
      ⊎ (((m.stopped ≡ false) × ((if m.stopped then m else serve_turn m e) ≡ serve_turn m e))
          ⊎ ((s : ℕ) × (n : ℕ) × (r : Bool) × (f : Bool) × ((if m.stopped
                  then m
                  else serve_turn m e)
                ≡ read_turn m s n r f)))
stopped-cases m e = elim (Bool-cases m.stopped) [
  | inl off ↦ inl (rw off refl)
  | inr on ↦ inr (inl (on, rw on refl))
]

step-cases :
    (m : Manager) (e : Event)
    → (manager_step m e ≡ m)
      ⊎ (((m.stopped ≡ false) × (manager_step m e ≡ serve_turn m e))
          ⊎ ((s : ℕ) × (n : ℕ) × (r : Bool) × (f : Bool) × (manager_step m e
                ≡ read_turn m s n r f)))
unfolding manager_step
step-cases m (read_by s n r f) = inr (inr (s, n, r, f, refl))
step-cases m (registration id) = stopped-cases m (registration id)
step-cases m (unregistration id) = stopped-cases m (unregistration id)
step-cases m (datagram id p) = stopped-cases m (datagram id p)
step-cases m context_done = stopped-cases m context_done

manager_step-IsOrderly : (m : Manager) (e : Event) → IsOrderly m → IsOrderly (manager_step m e)
manager_step-IsOrderly m e o = elim (step-cases m e) [
  | inl same ↦ subst IsOrderly (sym same) o
  | inr (inl (on, turn)) ↦ subst IsOrderly (sym turn) (serve_turn-IsOrderly m e on o)
  | inr (inr (s, n, r, f, turn)) ↦ subst IsOrderly (sym turn) (read_turn-IsOrderly m s n r f o)
]

run_from-IsOrderly : (es : List Event) (m : Manager) → IsOrderly m → IsOrderly (manager_run m es)
run_from-IsOrderly [] m o = o
run_from-IsOrderly (e ∷ es) m o =
    run_from-IsOrderly es (manager_step m e) (manager_step-IsOrderly m e o)

-- Over any registrations, unregistrations, datagrams, reads of the goroutines and an end of the
-- context, the manager closes a session at most once, and at most two values are ever sent to the
-- closeChan of a session, by close and by the last error of its goroutine: as many as it holds.
pub manager_run-sends :
    (es : List Event) (s : ℕ)
    → (times s (manager_run new_manager es).closes ≤ 1)
      × (times s (manager_run new_manager es).closes + times s (manager_run new_manager es).ended
          ≤ 2)
manager_run-sends es s =
    let o = run_from-IsOrderly es new_manager new_manager-IsOrderly in
    (o.once s, omega (arith, o.once s, o.reads_once s))
