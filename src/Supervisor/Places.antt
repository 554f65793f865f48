-- ===== src/Supervisor/Places.antt =====
-- supervisor/supervisor.go: where each connection is in the loop of Run, and what starting the
-- tunnels and setting the timer do to that.

use cloudflared.Common.{
  ltb, ◌==◌, if◌then◌else◌, length, ℕ, ◌+◌, ◌≤◌, ◌≡◌, refl, sym, ap, ◌∙◌, subst, ◌⊎◌, inl, inr,
  true, false, List, [], ◌∷◌, ◌++◌, arith,
}
use cloudflared.Retry.Backoff.{
  BackoffHandler, after, panics, int63n, reset_if_due, draw_timer, backoff_timer_after_reset,
  backoff_timer,
}
use cloudflared.Supervisor.Run.{
  Loop, Next, continues, returns, panicked, hangs, new_connected_tunnel_signal, start_tunnel,
  wait_for_next_tunnel, ensure_timer, remove, start_all, on_backoff_timer, Ready, done,
  tunnel_error, timer_fires,
}

abbrev pub times : ℕ → List ℕ → ℕ
times i [] = 0
times i (j ∷ js) = (if j == i then 1 else 0) + times i js

-- How often a connection is running, waiting or ended.
abbrev pub places : ℕ → Loop → ℕ
places i l = times i l.running + times i l.tunnels_waiting + times i l.ended

pub times-append : (i : ℕ) (xs ys : List ℕ) → times i (xs ++ ys) ≡ times i xs + times i ys
times-append i [] ys = omega arith
times-append i (x ∷ xs) ys = omega (arith, times-append i xs ys)

pub times-remove :
    (i j : ℕ) (xs : List ℕ)
    → 1 ≤ times j xs
    → times i (remove j xs) + (if j == i then 1 else 0) ≡ times i xs
unfolding remove
times-remove i j [] h = omega (arith, h)
times-remove i j (x ∷ xs) h = ground (arith, times-remove i j xs)

pub length-remove : (j : ℕ) (xs : List ℕ) → 1 ≤ times j xs → length (remove j xs) + 1 ≡ length xs
unfolding remove
length-remove j [] h = omega (arith, h)
length-remove j (x ∷ xs) h = ground (arith, length-remove j xs)

-- Each of n connections is in one place; the counter is that of the running tunnels; the backoff
-- handler retries forever; and the timer is set while a connection waits.
pub record IsConserved (n : ℕ) (l : Loop) : Type 0 where
  pub one_place : (i : ℕ) → places i l ≡ (if ltb i n then 1 else 0)
  pub exact : l.tunnels_active ≡ length l.running
  pub forever : l.backoff_handler.retry_forever ≡ true
  pub timed : l.timer_set ≡ false → l.tunnels_waiting ≡ []

-- What the select can meet: reports come from running tunnels, and a timer fires that is set.
abbrev pub IsPossible : Loop → Ready → Type 0
IsPossible l (tunnel_error index cause retry now draw pick) = 1 ≤ times index l.running
IsPossible l timer_fires = l.timer_set ≡ true
IsPossible l _ = Unit

-- When Run returns: on the context's end, or on the report of the only running tunnel.
abbrev pub ReturnsOn : Loop → Ready → Type 0
ReturnsOn l done = Unit
ReturnsOn l (tunnel_error index cause retry now draw pick) = length l.running ≡ 1
ReturnsOn l _ = ⊥

-- What an outcome leaves: a loop as it should be, a return when there may be one, or the panic of the
-- random draw.
abbrev pub IsSound : ℕ → Loop → Ready → Next → Type 0
IsSound n l e (continues l') = IsConserved n l'
IsSound n l e returns = ReturnsOn l e
IsSound n l e panicked = Unit
IsSound n l e hangs = ⊥

pub start_tunnel-places :
    (l : Loop) (j i : ℕ) → places i (start_tunnel l j) ≡ (if j == i then 1 else 0) + places i l
unfolding start_tunnel new_connected_tunnel_signal
start_tunnel-places l j i = omega arith

pub start_all-places :
    (l : Loop) (js : List ℕ) (i : ℕ)
    → (places i (start_all l js) ≡ times i js + places i l)
      × ((start_all l js).tunnels_waiting ≡ l.tunnels_waiting)
      × (length (start_all l js).running ≡ length js + length l.running)
      × ((start_all l js).backoff_handler ≡ l.backoff_handler)
unfolding start_all start_tunnel new_connected_tunnel_signal
start_all-places l [] i = (omega arith, refl, omega arith, refl)
start_all-places l (j ∷ js) i =
    let (p, w, n, b) = start_all-places (start_tunnel l j) js i in
    (omega (arith, p, start_tunnel-places l j i), w, omega (arith, n), b)

-- The fields that conservation reads.
abbrev pub SameTunnels : Loop → Loop → Type 0
SameTunnels l l' =
    (l'.running ≡ l.running)
    × (l'.tunnels_waiting ≡ l.tunnels_waiting)
    × (l'.ended ≡ l.ended)
    × (l'.tunnels_active ≡ l.tunnels_active)
    × (l'.backoff_handler.retry_forever ≡ l.backoff_handler.retry_forever)

pub same-IsConserved :
    (n : ℕ) (l l' : Loop)
    → SameTunnels l l'
    → (l.timer_set ≡ l'.timer_set) ⊎ (l'.timer_set ≡ true)
    → IsConserved n l
    → IsConserved n l'
same-IsConserved n l l' (r, w, e, a, f) t h = record {
  one_place = λ i. rw (r, w, e) (h.one_place i);
  exact = rw (r, a) h.exact;
  forever = f ∙ h.forever;
  timed = λ unset. w ∙ elim t [ inl same ↦ h.timed (same ∙ unset) | inr set ↦ cc ];
}

pub wait_for_next_tunnel-SameTunnels :
    (l : Loop) (index pick : ℕ)
    → SameTunnels l (wait_for_next_tunnel l index pick).0
      × (l.timer_set ≡ (wait_for_next_tunnel l index pick).0.timer_set)
      × (l.backoff_handler ≡ (wait_for_next_tunnel l index pick).0.backoff_handler)
unfolding wait_for_next_tunnel
wait_for_next_tunnel-SameTunnels l index pick = ground arith

-- BackoffTimer of a handler that retries forever gives a timer, unless the draw panics.
pub backoff_timer-forever :
    (b : BackoffHandler) (now draw : ℕ)
    → b.retry_forever ≡ true
    → ((backoff_timer b now draw).0.retry_forever ≡ true)
      × (((backoff_timer b now draw).1 ≡ panics)
          ⊎ ((w : ℕ) × ((backoff_timer b now draw).1 ≡ after w)))
unfolding backoff_timer reset_if_due backoff_timer_after_reset draw_timer int63n
backoff_timer-forever b now draw h = ground arith

-- All of IsConserved but the last field.
pub record IsCounted (n : ℕ) (l : Loop) : Type 0 where
  pub one_place : (i : ℕ) → places i l ≡ (if ltb i n then 1 else 0)
  pub exact : l.tunnels_active ≡ length l.running
  pub forever : l.backoff_handler.retry_forever ≡ true

pub ensure_timer-cases :
    (l : Loop) (now draw : ℕ)
    → l.backoff_handler.retry_forever ≡ true
    → ((l.timer_set ≡ true) × (ensure_timer l now draw ≡ continues l))
      ⊎ (ensure_timer l now draw ≡ panicked)
      ⊎ ((b : BackoffHandler) × (b.retry_forever ≡ true)
          × (ensure_timer l now draw
              ≡ continues (record l { backoff_handler = b; timer_set = true })))
unfolding ensure_timer
ensure_timer-cases l now draw f = ground (arith, backoff_timer-forever l.backoff_handler now draw f)

pub ensure_timer-IsSound :
    (n : ℕ) (l0 l : Loop) (e : Ready) (now draw : ℕ)
    → IsCounted n l
    → IsSound n l0 e (ensure_timer l now draw)
ensure_timer-IsSound n l0 l e now draw h = elim (ensure_timer-cases l now draw h.forever) [
  | inl (set, same) ↦ subst (IsSound n l0 e) (sym same) (record {
    one_place = h.one_place;
    exact = h.exact;
    forever = h.forever;
    timed = λ unset. cc;
  })
  | inr (inl p) ↦ subst (IsSound n l0 e) (sym p) tt
  | inr (inr (b, f, p)) ↦
      subst (IsSound n l0 e) (sym p)
        (record { one_place = h.one_place; exact = h.exact; forever = f; timed = λ unset. cc })
]

pub on_backoff_timer-IsConserved :
    (n : ℕ) (l : Loop) → IsConserved n l → IsConserved n (on_backoff_timer l)
unfolding on_backoff_timer
on_backoff_timer-IsConserved n l h =
    let l' = record l { timer_set = false } in
    record {
      one_place = λ i.
          let (p, w, k, b) = start_all-places l' l.tunnels_waiting i in
          ground (arith, p, ap (times i) w, h.one_place i);
      exact =
          let (p, w, k, b) = start_all-places l' l.tunnels_waiting 0 in omega (arith, k, h.exact);
      forever =
          ap (λ (c : BackoffHandler). c.retry_forever) (start_all-places l' l.tunnels_waiting 0).3
          ∙ h.forever;
      timed = λ unset. refl;
    }
