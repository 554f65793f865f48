-- ===== src/Supervisor/Reconnect.antt =====
-- supervisor/reconnect.go: the credentials for reconnecting, and tunnelrpc/pogs/auth_outcome.go: the
-- answer of Authenticate. A token that is nil is none; an empty text stands for no error.

use cloudflared.Common.{ℕ, ◌*◌, Bool, Option, none, some, List, [], ◌∷◌}
use cloudflared.Common.Bytes.{Bytes, bytes_eq_inst}
use cloudflared.Common.Map.{nat_eq, lookup, insert}
use cloudflared.Retry.Backoff.{
  BackoffHandler, Timer, get_max_backoff_duration, backoff_timer, set_grace_period,
}

pub record AuthenticateResponse : Type 0 where
  pub permanent_err : Bytes
  pub retryable_err : Bytes
  pub jwt : Bytes
  pub hours_until_refresh : ℕ

pub data AuthOutcome : Type 0 where
  auth_success : Option Bytes → ℕ → AuthOutcome
  auth_unknown : Bytes → ℕ → AuthOutcome
  auth_fail : Bytes → AuthOutcome

-- Outcome; none is the nil of a response with nothing in it.
unfoldable pub outcome_of : Bytes → Bytes → Bytes → ℕ → Option AuthOutcome
outcome_of (b ∷ err) retryable token hours = some (auth_fail (b ∷ err))
outcome_of [] (b ∷ err) token hours = some (auth_unknown (b ∷ err) hours)
outcome_of [] [] (b ∷ token) hours = some (auth_success (some (b ∷ token)) hours)
outcome_of [] [] [] hours = none

abbrev pub outcome : AuthenticateResponse → Option AuthOutcome
outcome r = outcome_of r.permanent_err r.retryable_err r.jwt r.hours_until_refresh

-- A nil slice has no bytes.
abbrev pub or_empty : Option Bytes → Bytes
or_empty none = []
or_empty (some b) = b

abbrev pub serialize : AuthOutcome → AuthenticateResponse
serialize (auth_success token hours) = record {
  permanent_err = [];
  retryable_err = [];
  jwt = or_empty token;
  hours_until_refresh = hours;
}
serialize (auth_unknown err hours) = record {
  permanent_err = [];
  retryable_err = err;
  jwt = [];
  hours_until_refresh = hours;
}
serialize (auth_fail err) = record {
  permanent_err = err;
  retryable_err = [];
  jwt = [];
  hours_until_refresh = 0;
}

pub record CredentialManager : Type 0 where
  pub token : Option Bytes
  pub event_digest : List (ℕ × Bytes)
  pub conn_digest : List (ℕ × Bytes)

abbrev pub new_credential_manager : CredentialManager
new_credential_manager = record { token = none; event_digest = []; conn_digest = [] }

-- none is errJWTUnset.
abbrev pub reconnect_token : CredentialManager → Option Bytes
reconnect_token cm = cm.token

abbrev pub set_reconnect_token : CredentialManager → Option Bytes → CredentialManager
set_reconnect_token cm jwt = record cm { token = jwt }

abbrev pub event_digest_of : CredentialManager → ℕ → Option Bytes
event_digest_of cm conn = lookup conn cm.event_digest

abbrev pub set_event_digest : CredentialManager → ℕ → Bytes → CredentialManager
set_event_digest cm conn digest = record cm { event_digest = insert conn digest cm.event_digest }

abbrev pub conn_digest_of : CredentialManager → ℕ → Option Bytes
conn_digest_of cm conn = lookup conn cm.conn_digest

abbrev pub set_conn_digest : CredentialManager → ℕ → Bytes → CredentialManager
set_conn_digest cm conn digest = record cm { conn_digest = insert conn digest cm.conn_digest }

-- The hour of package time, in nanoseconds
abbrev pub hours_to_time : ℕ → ℕ
hours_to_time hours = hours * 3600000000000

pub data Refreshed : Type 0 where
  retries_by : Timer → Refreshed
  refreshes_after : ℕ → Refreshed
  not_authenticated unexpected crashes : Refreshed
  failed : Bytes → Refreshed

-- The switch on the outcome
unfoldable pub on_outcome : CredentialManager → Option AuthOutcome → CredentialManager × Refreshed
on_outcome cm none = (cm, unexpected)
on_outcome cm (some (auth_success jwt hours)) =
    (set_reconnect_token cm jwt, refreshes_after (hours_to_time hours))
on_outcome cm (some (auth_unknown err hours)) = (cm, refreshes_after (hours_to_time hours))
on_outcome cm (some (auth_fail err)) = (cm, failed err)

-- What authenticate answers: an error, or a response's outcome
pub data Answered : Type 0 where
  auth_error : Answered
  answers : Option AuthOutcome → Answered

-- The context, the clock and the draw of one call
pub record Moment : Type 0 where
  pub done : Bool
  pub now : ℕ
  pub draw : ℕ

-- The calls on the backoff handler panic where rand.Int63n does.
unfoldable pub refresh_auth :
    CredentialManager
    → BackoffHandler
    → Moment
    → Answered
    → CredentialManager × BackoffHandler × Refreshed
refresh_auth cm b m auth_error = elim (get_max_backoff_duration b m.done m.now) [
  | none ↦ (cm, b, not_authenticated)
  | some longest ↦ let (b', t) = backoff_timer b m.now m.draw in (cm, b', retries_by t)
]
refresh_auth cm b m (answers o) = elim (set_grace_period b m.now m.draw) [
  | none ↦ (cm, b, crashes)
  | some b' ↦ let (cm', r) = on_outcome cm o in (cm', b', r)
]
