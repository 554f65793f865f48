-- ===== src/Tracker/Ready.antt =====
-- metrics/readiness.go: the readiness answer after any events.

-- makeResponse: the status code and the number of ready connections.
use cloudflared.Common.{
  ltb, ◌==◌, if◌then◌else◌, All, ℕ, zero, suc, ◌+◌, ◌≤◌, ◌<◌, ◌≡◌, refl, sym, ap, ◌∙◌, ◌⊎◌, inl,
  inr, Bool, true, false, List, [], ◌∷◌, arith,
}
use cloudflared.Common.Map.{nat_eq, lookup, insert, lookup-insert}
use cloudflared.Common.Count.{count_p}
use cloudflared.Connection.Protocol.{Protocol}
use cloudflared.Tracker.Conns.{
  Status, disconnected, connected, reconnecting, set_url, registering_tunnel, unregistering, Event,
  ConnectionInfo, Tracker, info_of, marked_down, on_status, on_tunnel_event, is_up,
  count_active_conns,
}

unfoldable pub make_response : Tracker → ℕ × ℕ
unfolding count_active_conns
make_response ct =
    if ltb 0 (count_active_conns ct)
    then (200, count_active_conns ct)
    else (503, count_active_conns ct)

-- The tracker of NewConnTracker after a list of events.
unfoldable pub run_events : Tracker → List Event → Tracker
run_events ct [] = ct
run_events ct (c ∷ cs) = run_events (on_tunnel_event ct c) cs

-- Whether a connection is up after a status, if it was before.
abbrev pub up_then : Status → Bool → Bool
up_then connected up = true
up_then disconnected up = false
up_then reconnecting up = false
up_then registering_tunnel up = false
up_then unregistering up = false
up_then set_url up = up

-- Whether connection i is up after events: whether its last event that is not SetURL is Connected.
unfoldable pub up_after : Bool → ℕ → List Event → Bool
up_after up i [] = up
up_after up i (c ∷ cs) = up_after (if c.index == i then up_then c.event_type up else up) i cs

-- The indices below n that are up after the events.
unfoldable pub ups : ℕ → List Event → ℕ
ups zero cs = 0
ups (suc n) cs = (if up_after false n cs then 1 else 0) + ups n cs

abbrev bit : Bool → ℕ
bit up = if up then 1 else 0

abbrev up_at : Tracker → ℕ → Bool
up_at ct i = (info_of ct i).is_connected

count_p-insert :
    (i : ℕ) (ci : ConnectionInfo) (ct : Tracker)
    → count_p is_up (insert i ci ct) + bit (up_at ct i) ≡ count_p is_up ct + bit ci.is_connected
unfolding insert lookup info_of
count_p-insert i ci [] = omega arith
count_p-insert i ci ((j, cj) ∷ ct) = ground (arith, count_p-insert i ci ct)

info_of-insert :
    (i j : ℕ) (ci : ConnectionInfo) (ct : Tracker)
    → info_of (insert i ci ct) j ≡ (if i == j then ci else info_of ct j)
unfolding info_of
info_of-insert i j ci ct = ground (arith, lookup-insert i j ci ct)

sum_up : ℕ → Tracker → ℕ
sum_up zero ct = 0
sum_up (suc n) ct = bit (up_at ct n) + sum_up n ct

sum_up-insert :
    (n i : ℕ) (ci : ConnectionInfo) (ct : Tracker)
    → (n ≤ i → sum_up n (insert i ci ct) ≡ sum_up n ct)
      × (i < n → sum_up n (insert i ci ct) + bit (up_at ct i) ≡ sum_up n ct + bit ci.is_connected)
unfolding sum_up
sum_up-insert zero i ci ct = ((λ h. refl), λ h. omega arith)
sum_up-insert (suc n) i ci ct =
    let (above, below) = sum_up-insert n i ci ct in
    let at_n : up_at (insert i ci ct) n ≡ (if i == n then ci else info_of ct n).is_connected =
      ap (λ (c : ConnectionInfo). c.is_connected) (info_of-insert i n ci ct) in
    ((λ h. ground (arith, above, below, at_n)), λ h. ground (arith, above, below, at_n))

marked_down-up :
    (ct : Tracker) (i j : ℕ) → up_at (marked_down ct i) j ≡ (if i == j then false else up_at ct j)
unfolding marked_down
marked_down-up ct i j =
    ground (arith, info_of-insert i j (record (info_of ct i) { is_connected = false }) ct)

on_status-up :
    (ct : Tracker) (i : ℕ) (p : Protocol) (s : Status) (j : ℕ)
    → up_at (on_status ct i p s) j ≡ (if i == j then up_then s (up_at ct j) else up_at ct j)
unfolding on_status
on_status-up ct i p connected j =
    ground (arith, info_of-insert i j (record { is_connected = true; protocol = p }) ct)
on_status-up ct i p disconnected j = marked_down-up ct i j
on_status-up ct i p reconnecting j = marked_down-up ct i j
on_status-up ct i p registering_tunnel j = marked_down-up ct i j
on_status-up ct i p unregistering j = marked_down-up ct i j
on_status-up ct i p set_url j = ground arith

-- What an event does to a tracker: nothing, or an entry of its index is set.
on_status-cases :
    (ct : Tracker) (i : ℕ) (p : Protocol) (s : Status)
    → (on_status ct i p s ≡ ct) ⊎ ((ci : ConnectionInfo) × (on_status ct i p s ≡ insert i ci ct))
unfolding on_status marked_down
on_status-cases ct i p disconnected = inr (_, refl)
on_status-cases ct i p connected = inr (_, refl)
on_status-cases ct i p reconnecting = inr (_, refl)
on_status-cases ct i p set_url = inl refl
on_status-cases ct i p registering_tunnel = inr (_, refl)
on_status-cases ct i p unregistering = inr (_, refl)

on_status-sum_up :
    (n i : ℕ) (ct : Tracker) (p : Protocol) (s : Status)
    → i < n
    → count_p is_up ct ≡ sum_up n ct
    → count_p is_up (on_status ct i p s) ≡ sum_up n (on_status ct i p s)
on_status-sum_up n i ct p s h e = elim (on_status-cases ct i p s) [
  | inl same ↦ rw same e
  | inr (ci, set) ↦ rw set (omega (arith, e, count_p-insert i ci ct, (sum_up-insert n i ci ct).1 h))
]

run_events-sum_up :
    (n : ℕ) (ct : Tracker) (cs : List Event)
    → All (λ (c : Event). c.index < n) cs
    → count_p is_up ct ≡ sum_up n ct
    → count_p is_up (run_events ct cs) ≡ sum_up n (run_events ct cs)
unfolding run_events on_tunnel_event
run_events-sum_up n ct [] h e = e
run_events-sum_up n ct (c ∷ cs) h e =
    run_events-sum_up n (on_tunnel_event ct c) cs h.1
      (on_status-sum_up n c.index ct c.protocol c.event_type h.0 e)

run_events-up :
    (ct : Tracker) (cs : List Event) (i : ℕ)
    → up_at (run_events ct cs) i ≡ up_after (up_at ct i) i cs
unfolding run_events up_after on_tunnel_event
run_events-up ct [] i = refl
run_events-up ct (c ∷ cs) i =
    run_events-up (on_tunnel_event ct c) cs i
    ∙ ap (λ b. up_after b i cs) (on_status-up ct c.index c.protocol c.event_type i)

fresh-sum_up : (n : ℕ) → sum_up n [] ≡ 0
unfolding sum_up info_of lookup
fresh-sum_up zero = refl
fresh-sum_up (suc n) = omega (arith, fresh-sum_up n)

sum_up-ups : (n : ℕ) (cs : List Event) → sum_up n (run_events [] cs) ≡ ups n cs
unfolding sum_up ups info_of lookup
sum_up-ups zero cs = refl
sum_up-ups (suc n) cs = rw (run_events-up [] cs n, sum_up-ups n cs) refl

-- After any events of connections below n, the readiness answer counts exactly the connections whose
-- last event other than SetURL is Connected, and it is 200 exactly when there is one, otherwise 503.
pub make_response-run_events :
    (n : ℕ) (cs : List Event)
    → All (λ (c : Event). c.index < n) cs
    → make_response (run_events [] cs) ≡ (if ltb 0 (ups n cs) then 200 else 503, ups n cs)
unfolding make_response count_active_conns
make_response-run_events n cs h =
    let counted : count_p is_up (run_events [] cs) ≡ ups n cs =
      run_events-sum_up n [] cs h (sym (fresh-sum_up n)) ∙ sum_up-ups n cs in
    rw counted (ground arith)
