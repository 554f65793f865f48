-- ===== src/Supervisor/Fallback.antt =====
-- supervisor/tunnel.go: protocolFallback and selectNextProtocol.

use cloudflared.Common.{
  if◌then◌else◌, ℕ, Bool, true, false, ◌&&◌, ◌||◌, not, Option, none, some, List, [], ◌∷◌,
}
use cloudflared.Retry.Backoff.{
  BackoffHandler, Timer, nil, after, panics, get_max_backoff_duration, backoff_timer,
  reached_max_retries, reset_now,
}
use cloudflared.Connection.Protocol.{Protocol, protocol_eq, ProtocolPercent}
use cloudflared.Connection.Selector.{Selector, current, selector_fallback}
use cloudflared.Supervisor.Errors.{EdgeError, is_quic_broken}

pub record ProtocolFallback : Type 0 where
  pub backoff_handler : BackoffHandler
  pub protocol : Protocol
  pub in_fallback : Bool

unfoldable pub reset : ProtocolFallback → ℕ → ProtocolFallback
unfolding reset_now
reset pf now = record pf { backoff_handler = reset_now pf.backoff_handler now; in_fallback = false }

unfoldable pub fall_back : ProtocolFallback → Protocol → ℕ → ProtocolFallback
unfolding reset_now
fall_back pf protocol now = record pf {
  backoff_handler = reset_now pf.backoff_handler now;
  protocol = protocol;
  in_fallback = true;
}

-- One failed connection attempt: its error, whether the text says "operation not permitted", the
-- time, and what the percentage fetcher would answer.
pub record Attempt : Type 0 where
  pub cause : EdgeError
  pub not_permitted : Bool
  pub now : ℕ
  pub answer : Option (List ProtocolPercent)

-- selectNextProtocol, with the selector that the connections share. `none` is a panic in Current.
unfoldable pub select_next_protocol :
    ProtocolFallback → Selector → Attempt → Option (ProtocolFallback × Selector × Bool)
unfolding fall_back
select_next_protocol pf selector a =
    let broken = is_quic_broken a.cause a.not_permitted in
    let (next, has_fallback) = selector_fallback selector in
    if reached_max_retries pf.backoff_handler || (has_fallback && broken)
    then if not has_fallback
      then some (pf, selector, false)
      else if protocol_eq pf.protocol next
      then some (pf, selector, false)
      else some (fall_back pf next a.now, selector, true)
    else if not pf.in_fallback
    then elim (current selector a.now a.answer) [
      | none ↦ none
      | some (selector', p) ↦
          some
            (if protocol_eq pf.protocol p then pf else record pf { protocol = p }, selector', true)
    ]
    else some (pf, selector, true)

-- The end of one Serve, from the error of serveTunnel on: whether the context is done, the time and
-- the draw of BackoffTimer, whether its case of the select wins, whether to fall back, what the
-- tracker says of a protocol, the explicit call of Current, and selectNextProtocol's arguments. The
-- selector is shared, so that other connections may have replaced it: it comes with the turn.
pub record Turn : Type 0 where
  pub selector : Selector
  pub canceled : Bool
  pub now : ℕ
  pub draw : ℕ
  pub timer_wins : Bool
  pub should_fall_back : Bool
  pub connected_with : Protocol → Bool
  pub asked_at : ℕ
  pub answer : Option (List ProtocolPercent)
  pub attempt : Attempt

unfoldable pub state_of : Option (ProtocolFallback × Selector × Bool) → Option ProtocolFallback
state_of none = none
state_of (some (pf, s, goes_on)) = some pf

-- The case of the backoff timer; none is a panic. Serve returns the error whatever
-- selectNextProtocol answers.
unfoldable pub on_retry : ProtocolFallback → Turn → Option ProtocolFallback
on_retry pf t =
    if not t.should_fall_back then some pf else elim (current t.selector t.asked_at t.answer) [
      | none ↦ none
      | some (s, p) ↦
          if t.connected_with p then some pf else state_of (select_next_protocol pf s t.attempt)
    ]

-- The select: a nil timer never fires.
unfoldable pub on_timer : ProtocolFallback → Turn → Timer → Option ProtocolFallback
on_timer pf t nil = some pf
on_timer pf t (after wait) = if t.timer_wins then on_retry pf t else some pf
on_timer pf t panics = none

-- BackoffTimer is called before the select waits, whichever of its cases wins.
unfoldable pub end_serve : ProtocolFallback → Turn → Option ProtocolFallback
end_serve pf t = elim (get_max_backoff_duration pf.backoff_handler t.canceled t.now) [
  | none ↦ some pf
  | some longest ↦
      let (b, timer) = backoff_timer pf.backoff_handler t.now t.draw in
      on_timer (record pf { backoff_handler = b }) t timer
]

-- The turns of one connection, each of which Run starts again
unfoldable pub end_serves : ProtocolFallback → List Turn → Option ProtocolFallback
end_serves pf [] = some pf
end_serves pf (t ∷ ts) = elim (end_serve pf t) [ none ↦ none | some pf' ↦ end_serves pf' ts ]
