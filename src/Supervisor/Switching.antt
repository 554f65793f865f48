-- ===== src/Supervisor/Switching.antt =====
-- supervisor/tunnel.go: when a connection changes its protocol.

use cloudflared.Common.{
  Bool-cases, Option-cases, All, ℕ, ◌*◌, ◌^◌, ◌≤◌, ◌<◌, ◌≡◌, refl, sym, subst, ◌≢◌, ◌⊎◌, inl, inr,
  Bool, true, false, Option, some, List, [], ◌∷◌, arith,
}
use cloudflared.Retry.Bounds.{backoff_timer_bounded, backoff_timer-keeps}
use cloudflared.Retry.Backoff.{
  BackoffHandler, two_63, Timer, nil, after, panics, get_base_time, get_max_backoff_duration,
  backoff_timer, reached_max_retries,
}
use cloudflared.Connection.Protocol.{Protocol, http2, protocol_eq_iff}
use cloudflared.Connection.Selector.{Selector, fixed, remote, default, current, selector_fallback}
use cloudflared.Supervisor.Errors.{is_quic_broken}
use cloudflared.Supervisor.Fallback.{
  ProtocolFallback, Attempt, select_next_protocol, Turn, state_of, on_retry, on_timer, end_serve,
  end_serves,
}

pub fallback_kinds :
    (s : Selector) → (selector_fallback s ≡ (http2, true)) ⊎ ((selector_fallback s).1 ≡ false)
unfolding selector_fallback
fallback_kinds (fixed p) = inr refl
fallback_kinds (default p) = ground arith
fallback_kinds (remote s) = ground arith

-- A connection is told to stop exactly when it is out of retries and has no fallback or is on it
-- already, or when quic is broken and it has a fallback and is on it already; then its state and the
-- selector are unchanged.
pub select_next_protocol_stops :
    (pf : ProtocolFallback) (s : Selector) (a : Attempt)
    → let out =
        (reached_max_retries pf.backoff_handler ≡ true)
        ⊎ (((selector_fallback s).1 ≡ true) × (is_quic_broken a.cause a.not_permitted ≡ true)) in
      let nowhere = ((selector_fallback s).1 ≡ false) ⊎ (pf.protocol ≡ (selector_fallback s).0) in
      (out → nowhere → select_next_protocol pf s a ≡ some (pf, s, false))
      × ((pf' : ProtocolFallback) (s' : Selector)
          → select_next_protocol pf s a ≡ some (pf', s', false)
          → out × nowhere)
unfolding select_next_protocol
select_next_protocol_stops pf s a =
    let same = protocol_eq_iff pf.protocol (selector_fallback s).0 in
    (
      (λ out nowhere. ground (arith, same)),
      λ pf' s' e. (ground (arith, same), ground (arith, same)),
    )

-- A connection in fallback is on http2.
abbrev pub OnFallback : ProtocolFallback → Type 0
OnFallback pf = (pf.in_fallback ≡ true) × (pf.protocol ≡ http2)

-- What a failed attempt does to a connection in fallback: nothing, except that it may stop it.
select_next_protocol-OnFallback :
    (pf : ProtocolFallback) (s : Selector) (a : Attempt)
    → OnFallback pf
    → (select_next_protocol pf s a ≡ some (pf, s, false))
      ⊎ (select_next_protocol pf s a ≡ some (pf, s, true))
unfolding select_next_protocol
select_next_protocol-OnFallback pf s a h = ground (arith, fallback_kinds s)

-- BackoffTimer does not overflow.
pub record IsTimed (b : BackoffHandler) : Type 0 where
  pub counted : b.retries ≤ b.max_retries
  pub some_time : 0 < get_base_time b
  pub fits : get_base_time b * 2 ^ b.max_retries < two_63

timer-IsTimed :
    (b : BackoffHandler) (now draw : ℕ) → IsTimed b → IsTimed (backoff_timer b now draw).0
timer-IsTimed b now draw h =
    let (counts, max, base) = backoff_timer-keeps b now draw in
    record {
      counted = counts h.counted;
      some_time = rw base h.some_time;
      fits = rw (base, max) h.fits;
    }

-- Neither call of Current in a turn panics.
abbrev pub CurrentRuns : Turn → Type 0
CurrentRuns t =
    (s : Selector) × (p : Protocol) × (current t.selector t.asked_at t.answer ≡ some (s, p))

abbrev Holds : Option ProtocolFallback → Type 0
Holds r = (pf : ProtocolFallback) × (r ≡ some pf) × OnFallback pf × IsTimed pf.backoff_handler

selected-Holds :
    (pf : ProtocolFallback) (s : Selector) (a : Attempt)
    → OnFallback pf
    → IsTimed pf.backoff_handler
    → Holds (state_of (select_next_protocol pf s a))
unfolding state_of
selected-Holds pf s a on timed = elim (select_next_protocol-OnFallback pf s a on) [
  | inl e ↦ rw e (pf, refl, on, timed)
  | inr e ↦ rw e (pf, refl, on, timed)
]

on_retry-Holds :
    (pf : ProtocolFallback) (t : Turn)
    → OnFallback pf
    → IsTimed pf.backoff_handler
    → CurrentRuns t
    → Holds (on_retry pf t)
unfolding on_retry
on_retry-Holds pf t on timed (s, p, runs) = elim (Bool-cases t.should_fall_back) [
  | inr off ↦ rw off (pf, refl, on, timed)
  | inl go ↦ elim (Bool-cases (t.connected_with p)) [
    | inl c ↦ rw (go, runs, c) (pf, refl, on, timed)
    | inr c ↦ rw (go, runs, c) (selected-Holds pf s t.attempt on timed)
  ]
]

on_timer-Holds :
    (pf : ProtocolFallback) (t : Turn) (timer : Timer)
    → OnFallback pf
    → IsTimed pf.backoff_handler
    → CurrentRuns t
    → timer ≢ panics
    → Holds (on_timer pf t timer)
unfolding on_timer on_retry
on_timer-Holds pf t nil on timed runs fine = (pf, refl, on, timed)
on_timer-Holds pf t (after wait) on timed runs fine = elim (Bool-cases t.timer_wins) [
  | inl e ↦ rw e (on_retry-Holds pf t on timed runs)
  | inr e ↦ rw e (pf, refl, on, timed)
]
on_timer-Holds pf t panics on timed runs fine = absurd (fine refl)

end_serve-cases :
    (pf : ProtocolFallback) (t : Turn)
    → (end_serve pf t ≡ some pf)
      ⊎ (end_serve pf t
          ≡ on_timer
              (record pf { backoff_handler = (backoff_timer pf.backoff_handler t.now t.draw).0 })
              t
              (backoff_timer pf.backoff_handler t.now t.draw).1)
end_serve-cases pf t =
    elim (Option-cases (get_max_backoff_duration pf.backoff_handler t.canceled t.now)) [
      | inl e ↦ inl (unfold end_serve in ground (arith, e))
      | inr (longest, e) ↦ inr (unfold end_serve in ground (arith, e))
    ]

end_serve-Holds :
    (pf : ProtocolFallback) (t : Turn)
    → OnFallback pf
    → IsTimed pf.backoff_handler
    → CurrentRuns t
    → Holds (end_serve pf t)
end_serve-Holds pf t on timed runs =
    let b : BackoffHandler = (backoff_timer pf.backoff_handler t.now t.draw).0 in
    let bounded =
      backoff_timer_bounded pf.backoff_handler t.now t.draw timed.counted timed.some_time
        timed.fits in
    elim (end_serve-cases pf t) [
      | inl e ↦ subst Holds (sym e) (pf, refl, on, timed)
      | inr e ↦ subst Holds (sym e) (
          on_timer-Holds (record pf { backoff_handler = b }) t
            (backoff_timer pf.backoff_handler t.now t.draw).1 on
            (timer-IsTimed pf.backoff_handler t.now t.draw timed) runs bounded.1)
    ]

end_serves_next :
    (pf pf' : ProtocolFallback) (t : Turn) (ts : List Turn)
    → end_serve pf t ≡ some pf'
    → end_serves pf (t ∷ ts) ≡ end_serves pf' ts
unfolding end_serves
end_serves_next pf pf' t ts e = ground (arith, e)

end_serves-Holds :
    (pf : ProtocolFallback) (ts : List Turn)
    → OnFallback pf
    → IsTimed pf.backoff_handler
    → All CurrentRuns ts
    → Holds (end_serves pf ts)
end_serves-Holds pf [] on timed runs = (pf, unfold end_serves in refl, on, timed)
end_serves-Holds pf (t ∷ ts) on timed runs =
    let (pf', e, on', timed') = end_serve-Holds pf t on timed runs.0 in
    subst Holds (sym (end_serves_next pf pf' t ts e)) (end_serves-Holds pf' ts on' timed' runs.1)

-- From a failed attempt that puts a connection into fallback on, and until a connection of it is
-- established, no series of further failed turns takes it out of fallback or changes its protocol,
-- which is http2: whatever the waits, the errors and the other connections' changes of the selector,
-- and also after a turn that says to stop. No turn panics, if the base time shifted by MaxRetries fits
-- an int64 and Current does not panic.
pub fallback_is_final :
    (pf : ProtocolFallback) (s : Selector) (a : Attempt) (pf' : ProtocolFallback) (s' : Selector)
    (goes_on : Bool) (turns : List Turn)
    → pf.in_fallback ≡ false
    → select_next_protocol pf s a ≡ some (pf', s', goes_on)
    → pf'.in_fallback ≡ true
    → IsTimed pf'.backoff_handler
    → All CurrentRuns turns
    → (last : ProtocolFallback) × (end_serves pf' turns ≡ some last)
      × (last.in_fallback ≡ true)
      × (last.protocol ≡ http2)
unfolding select_next_protocol
fallback_is_final pf s a pf' s' goes_on turns before e entered timed runs =
    let on : pf'.protocol ≡ http2 = ground (arith, fallback_kinds s) in
    let (last, ends, stays, still) = end_serves-Holds pf' turns (entered, on) timed runs in
    (last, ends, stays.0, stays.1)
