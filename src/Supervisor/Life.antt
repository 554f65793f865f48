-- ===== src/Supervisor/Life.antt =====
-- supervisor/supervisor.go: the loop of Run from its start in `initialize`.

use cloudflared.Common.{
  ltb, leb, if◌then◌else◌, length, ℕ, zero, suc, ◌+◌, ◌-◌, ◌≤◌, ◌<◌, ◌≡◌, refl, ap, ◌∙◌, subst,
  true, false, ◌&&◌, some, [], ◌∷◌, arith,
}
use cloudflared.Supervisor.Endings.{start_all-ended}
use cloudflared.Retry.Backoff.{BackoffHandler}
use cloudflared.Supervisor.Run.{
  Loop, no_error, continues, hangs, new_connected_tunnel_signal, start_tunnel, on_backoff_timer,
  on_done, Ready, done, step, first_connects, first_reports, start_others, no_tunnels, initial,
}
use cloudflared.Supervisor.Places.{
  times, places, IsConserved, IsPossible, IsSound, on_backoff_timer-IsConserved,
}
use cloudflared.Supervisor.Conservation.{step-IsSound}
use mathlib.Core.Option.{some-injective}

-- The loops that can follow a loop.
pub data Reaches (l : Loop) : Loop → Type 0 where
  start : Reaches l l
  then_step :
      (m m' : Loop) (e : Ready)
      → Reaches l m
      → IsPossible m e
      → step m e ≡ continues m'
      → Reaches l m'

Reaches-IsConserved : (n : ℕ) (l m : Loop) → IsConserved n l → Reaches l m → IsConserved n m
Reaches-IsConserved n l _ h start = h
Reaches-IsConserved n l _ h (then_step m m' e r possible made) =
    let sound : IsSound n m e (step m e) =
      (step-IsSound n m e (Reaches-IsConserved n l m h r) possible).0 in
    subst (IsSound n m e) made sound

start_others-places :
    (l : Loop) (k n i : ℕ)
    → (places i (start_others l k n) ≡ places i l + (if leb k i && ltb i (k + n) then 1 else 0))
      × (length (start_others l k n).running ≡ n + length l.running)
      × ((start_others l k n).tunnels_active ≡ l.tunnels_active)
      × ((start_others l k n).backoff_handler ≡ l.backoff_handler)
      × ((start_others l k n).tunnels_waiting ≡ l.tunnels_waiting)
unfolding start_others start_tunnel new_connected_tunnel_signal
start_others-places l k zero i = (ground arith, omega arith, refl, refl, refl)
start_others-places l k (suc n) i =
    let (p, r, a, b, w) = start_others-places (start_tunnel l k) (k + 1) n i in
    (ground (arith, p), omega (arith, r), a, b, w)

pub initial-IsConserved :
    (b : BackoffHandler) (ha : ℕ) (l : Loop)
    → 1 ≤ ha
    → b.retry_forever ≡ true
    → initial b ha first_connects ≡ some l
    → IsConserved ha l
unfolding initial
initial-IsConserved b ha l some_ha f e =
    let l0 : Loop = record (no_tunnels b ha) { running = 0 ∷ [] } in
    let same : start_others l0 1 (ha - 1) ≡ l = some-injective _ _ e in
    let (p, r, a, c, w) = start_others-places l0 1 (ha - 1) 0 in
    subst (IsConserved ha) same (record {
      one_place = λ i. ground (arith, (start_others-places l0 1 (ha - 1) i).0);
      exact = omega (arith, r, a);
      forever = ap (λ (x : BackoffHandler). x.retry_forever) c ∙ f;
      timed = λ unset. w;
    })

on_backoff_timer-moves :
    (l : Loop)
    → ((on_backoff_timer l).tunnels_waiting ≡ []) × ((on_backoff_timer l).ended ≡ l.ended)
unfolding on_backoff_timer
on_backoff_timer-moves l =
    (refl, start_all-ended (record l { timer_set = false }) l.tunnels_waiting)

-- From the moment the first of ha connections has connected, after any events that can happen, each
-- connection below ha is running, waiting or ended, and only one of these; tunnelsActive counts the running ones; and when the backoff timer fires, each
-- connection that has not ended is running again.
pub run_conserves :
    (b : BackoffHandler) (ha : ℕ) (l m : Loop)
    → 1 ≤ ha
    → b.retry_forever ≡ true
    → initial b ha first_connects ≡ some l
    → Reaches l m
    → ((i : ℕ) → places i m ≡ (if ltb i ha then 1 else 0))
      × (m.tunnels_active ≡ length m.running)
      × ((i : ℕ) → i < ha → times i (on_backoff_timer m).running + times i m.ended ≡ 1)
run_conserves b ha l m some_ha f e r =
    let h = Reaches-IsConserved ha l m (initial-IsConserved b ha l some_ha f e) r in
    (
      h.one_place,
      h.exact,
      λ i small. ground (
        arith,
        (on_backoff_timer-IsConserved ha m h).one_place i,
        on_backoff_timer-moves m,
        ap (times i) (on_backoff_timer-moves m).0,
        ap (times i) (on_backoff_timer-moves m).1,
      ),
    )

-- When the first tunnel reports no error before it has connected, Run enters its loop with no running
-- tunnel though tunnelsActive counts them all, and then hangs when its context ends.
pub first_report_hangs :
    (b : BackoffHandler) (ha : ℕ)
    → 1 ≤ ha
    → (l : Loop) × (initial b ha (first_reports no_error) ≡ some l)
      × (l.running ≡ [])
      × (l.tunnels_active ≡ ha)
      × (step l done ≡ hangs)
unfolding initial step on_done
first_report_hangs b ha some_ha = (_, refl, refl, refl, ground arith)
