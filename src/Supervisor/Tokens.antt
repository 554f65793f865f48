-- ===== src/Supervisor/Tokens.antt =====
-- supervisor/reconnect.go: which token the manager holds.
use cloudflared.Common.{
  Option-cases, ℕ, ◌+◌, ◌*◌, ◌%◌, ◌^◌, ◌≤◌, ◌<◌, ◌≡◌, refl, sym, subst, ◌⊎◌, inl, inr, true, Option,
  none, some, List, [], ◌∷◌, arith,
}
use cloudflared.Retry.Bounds.{backoff_timer-keeps}
use cloudflared.Common.Bytes.{Bytes}
use cloudflared.Common.Powers.{two_pow_pos, mul_two_pow_le}
use cloudflared.Retry.Backoff.{
  BackoffHandler, two_63, two_64, shift_left, is_positive, int63n, get_base_time,
  get_max_backoff_duration, backoff_timer, set_grace_period,
}
use cloudflared.Supervisor.Reconnect.{
  AuthOutcome, auth_success, auth_unknown, auth_fail, CredentialManager, reconnect_token, Refreshed,
  retries_by, not_authenticated, on_outcome, Answered, auth_error, answers, Moment, refresh_auth,
}
use native.Mathlib.Nat.{mul-pos}

-- The turns, one after the other
abbrev pub refresh_all :
    CredentialManager
    → BackoffHandler
    → List (Moment × Answered)
    → CredentialManager × BackoffHandler
refresh_all cm b [] = (cm, b)
refresh_all cm b ((m, a) ∷ turns) =
    let r : CredentialManager × BackoffHandler × Refreshed = refresh_auth cm b m a in
    refresh_all r.0 r.1 turns

-- The token after an answer
abbrev pub token_after : Option Bytes → Answered → Option Bytes
token_after t auth_error = t
token_after t (answers none) = t
token_after t (answers (some (auth_success jwt hours))) = jwt
token_after t (answers (some (auth_unknown err hours))) = t
token_after t (answers (some (auth_fail err))) = t

abbrev pub last_token : Option Bytes → List (Moment × Answered) → Option Bytes
last_token t [] = t
last_token t ((m, a) ∷ turns) = last_token (token_after t a) turns

pub record IsShort (b : BackoffHandler) : Type 0 where
  pub counted : b.retries ≤ b.max_retries
  pub some_time : 0 < get_base_time b
  pub fits : (get_base_time b * 2) * 2 ^ (b.max_retries + 1) < two_63

shifted : (x k : ℕ) → 0 < x → x * 2 ^ k < two_63 → is_positive (shift_left (x % two_64) k) ≡ true
unfolding shift_left
shifted x k pos fits =
    let some_wait : 0 < x * 2 ^ k = mul-pos pos (two_pow_pos k) in
    let small : x * 1 ≤ x * 2 ^ k = mul_two_pow_le x 0 k (omega arith) in
    let same : x % two_64 ≡ x = omega (arith, small) in rw same (ground arith)

set_grace_period-some :
    (b : BackoffHandler) (now draw : ℕ)
    → IsShort b
    → (wait : ℕ) × (set_grace_period b now draw
        ≡ some (record b { reset_deadline = some (now + wait) }))
unfolding set_grace_period int63n
set_grace_period-some b now draw h = (
  draw % shift_left ((get_base_time b * 2) % two_64) (b.retries + 1),
  ground (
    arith,
    shifted (get_base_time b * 2) (b.retries + 1) (omega (arith, h.some_time)) (
        omega (
          arith,
          h.fits,
          h.counted,
          mul_two_pow_le (get_base_time b * 2) (b.retries + 1) (b.max_retries + 1)
              (omega (arith, h.counted)),
        )),
  ),
)

timer-IsShort :
    (b : BackoffHandler) (now draw : ℕ) → IsShort b → IsShort (backoff_timer b now draw).0
timer-IsShort b now draw h =
    let (counts, max, base) = backoff_timer-keeps b now draw in
    record {
      counted = counts h.counted;
      some_time = rw base h.some_time;
      fits = rw (base, max) h.fits;
    }

deadline-IsShort :
    (b : BackoffHandler) (t : ℕ) → IsShort b → IsShort (record b { reset_deadline = some t })
deadline-IsShort b t h = record { counted = h.counted; some_time = h.some_time; fits = h.fits }

abbrev Follows :
    CredentialManager → Answered → CredentialManager × BackoffHandler × Refreshed → Type 0
Follows cm a r = (r.0.token ≡ token_after cm.token a) × IsShort r.1

on_outcome-token :
    (cm : CredentialManager) (o : Option AuthOutcome)
    → (on_outcome cm o).0.token ≡ token_after cm.token (answers o)
unfolding on_outcome
on_outcome-token cm none = refl
on_outcome-token cm (some (auth_success jwt hours)) = refl
on_outcome-token cm (some (auth_unknown err hours)) = refl
on_outcome-token cm (some (auth_fail err)) = refl

refresh_auth_answered :
    (cm : CredentialManager) (b b' : BackoffHandler) (m : Moment) (o : Option AuthOutcome)
    → set_grace_period b m.now m.draw ≡ some b'
    → refresh_auth cm b m (answers o) ≡ ((on_outcome cm o).0, b', (on_outcome cm o).1)
unfolding refresh_auth
refresh_auth_answered cm b b' m o e = ground (arith, e)

refresh_auth_error :
    (cm : CredentialManager) (b : BackoffHandler) (m : Moment)
    → (refresh_auth cm b m auth_error ≡ (cm, b, not_authenticated))
      ⊎ (refresh_auth cm b m auth_error
          ≡ (cm, (backoff_timer b m.now m.draw).0, retries_by (backoff_timer b m.now m.draw).1))
refresh_auth_error cm b m = elim (Option-cases (get_max_backoff_duration b m.done m.now)) [
  | inl e ↦ inl (unfold refresh_auth in ground (arith, e))
  | inr (longest, e) ↦ inr (unfold refresh_auth in ground (arith, e))
]

refresh_auth-Follows :
    (cm : CredentialManager) (b : BackoffHandler) (m : Moment) (a : Answered)
    → IsShort b
    → Follows cm a (refresh_auth cm b m a)
refresh_auth-Follows cm b m auth_error h = elim (refresh_auth_error cm b m) [
  | inl e ↦ subst (Follows cm auth_error) (sym e) (refl, h)
  | inr e ↦ subst (Follows cm auth_error) (sym e) (refl, timer-IsShort b m.now m.draw h)
]
refresh_auth-Follows cm b m (answers o) h =
    let (wait, e) = set_grace_period-some b m.now m.draw h in
    let b' : BackoffHandler = record b { reset_deadline = some (m.now + wait) } in
    subst (Follows cm (answers o)) (sym (refresh_auth_answered cm b b' m o e))
      (on_outcome-token cm o, deadline-IsShort b (m.now + wait) h)

-- Over any turns of RefreshAuth, with a backoff handler that has not counted past its limit and whose
-- base time, doubled once more than the limit and once again, fits an int64, ReconnectToken gives the
-- token of the last answer that succeeded, errJWTUnset if that is nil, or what it gave before where
-- no answer did.
pub reconnect_token-refresh_all :
    (cm : CredentialManager) (b : BackoffHandler) (turns : List (Moment × Answered))
    → IsShort b
    → reconnect_token (refresh_all cm b turns).0 ≡ last_token (reconnect_token cm) turns
reconnect_token-refresh_all cm b [] h = refl
reconnect_token-refresh_all cm b ((m, a) ∷ turns) h =
    let (token, short) = refresh_auth-Follows cm b m a h in
    subst
      (λ (t : Option Bytes).
        reconnect_token (refresh_all cm b ((m, a) ∷ turns)).0 ≡ last_token t turns)
      token
      (reconnect_token-refresh_all (refresh_auth cm b m a).0 (refresh_auth cm b m a).1 turns short)
