-- ===== src/Sessions/Idle.antt =====
-- datagramsession/session.go: what ends a session, from the wakes of waitForCloseCondition. Times and
-- durations are nanoseconds.

use cloudflared.Common.{
  ltb, ◌==◌, if◌then◌else◌, Bool-cases, ℕ, ◌+◌, ◌/◌, ◌<◌, ◌≡◌, ap, inl, inr, Option, none, some,
  List, [], ◌∷◌, ◌++◌, arith,
}

pub data Wake : Type 0 where
  context_done : Wake
  reason : ℕ → Wake
  tick active : ℕ → Wake

pub data Ended : Type 0 where
  by_context panicked : Ended
  by_reason idle_at : ℕ → Ended

-- The loop, with the last active time; none while it goes on.
unfoldable pub wait_loop : ℕ → ℕ → List Wake → Option Ended
wait_loop idle active_at [] = none
wait_loop idle active_at (context_done ∷ ws) = some by_context
wait_loop idle active_at (reason r ∷ ws) = some (by_reason r)
wait_loop idle active_at (tick now ∷ ws) =
    if ltb (active_at + idle) now then some (idle_at now) else wait_loop idle active_at ws
wait_loop idle active_at (active t ∷ ws) = wait_loop idle t ws

-- defaultCloseIdleAfter stands for 0.
abbrev pub idle_time : ℕ → ℕ
idle_time close_after_idle = if close_after_idle == 0 then 210000000000 else close_after_idle

-- waitForCloseCondition from the time at which it starts; a ticker of no duration panics.
unfoldable pub wait_for_close_condition : ℕ → ℕ → List Wake → Option Ended
wait_for_close_condition close_after_idle start ws =
    if idle_time close_after_idle / 8 == 0
    then some panicked
    else wait_loop (idle_time close_after_idle) start ws

-- The last time at which the session was active
abbrev pub last_active : ℕ → List Wake → ℕ
last_active t [] = t
last_active t (active u ∷ ws) = last_active u ws
last_active t (tick now ∷ ws) = last_active t ws
last_active t (reason r ∷ ws) = last_active t ws
last_active t (context_done ∷ ws) = last_active t ws

end_at : {t u : ℕ} → some (idle_at t) ≡ some (idle_at u) → t ≡ u
end_at e = cc

-- A session that ends for idleness at a tick was active before it, and then for longer than the
-- idle time not any more.
pub wait_loop-idle :
    (idle start : ℕ) (ws : List Wake) (now : ℕ)
    → wait_loop idle start ws ≡ some (idle_at now)
    → (before after : List Wake) × (ws ≡ before ++ tick now ∷ after)
      × (last_active start before + idle < now)
unfolding wait_loop
wait_loop-idle idle start [] now e = cc
wait_loop-idle idle start (context_done ∷ ws) now e = cc
wait_loop-idle idle start (reason r ∷ ws) now e = cc
wait_loop-idle idle start (active t ∷ ws) now e =
    let (before, after, split, late) = wait_loop-idle idle t ws now e in
    (active t ∷ before, after, ap (◌∷◌ (active t)) split, late)
wait_loop-idle idle start (tick u ∷ ws) now e = elim (Bool-cases (ltb (start + idle) u)) [
  | inl late ↦
      let same = end_at (rw late at e) in
      ([], ws, ap (λ (t : ℕ). tick t ∷ ws) same, ground (arith, late, same))
  | inr early ↦
      let (before, after, split, late) = wait_loop-idle idle start ws now (rw early at e) in
      (tick u ∷ before, after, ap (◌∷◌ (tick u)) split, late)
]
