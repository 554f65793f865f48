-- ===== src/Socks/Auth.antt =====
-- socks/auth_handler.go, socks/authenticator.go: the choice of an authentication method.

use cloudflared.Common.{◌==◌, if◌then◌else◌, ℕ, Bool, Option, none, some, List, [], ◌∷◌}
use cloudflared.Common.Bytes.{Bytes, bytes_eq_inst}
use cloudflared.Common.Map.{nat_eq, lookup, insert}
use cloudflared.Socks.World.{
  no_acceptable, auth_failed, bad_auth_version, M, ◌>>=◌, ◌>>◌, fail, read, byte, write, ignore,
}

pub data Authenticator : Type 0 where
  no_auth : Authenticator
  user_pass : (Bytes → Bytes → Bool) → Authenticator

abbrev pub AuthHandler : Type 0
AuthHandler = List (ℕ × Authenticator)

unfoldable pub new_auth_handler : AuthHandler
new_auth_handler = (0, no_auth) ∷ []

unfoldable pub register : ℕ → Authenticator → AuthHandler → AuthHandler
register method a h = insert method a h

unfoldable pub check_password : (Bytes → Bytes → Bool) → Bytes → Bytes → M (Unit {0})
check_password is_valid user pass =
    if is_valid user pass then write (1 ∷ 0 ∷ []) else (do write (1 ∷ 1 ∷ []); fail auth_failed)

unfoldable pub read_user : (Bytes → Bytes → Bool) → Bytes → M (Unit {0})
read_user is_valid header =
    if byte header 0 == 1
    then (do
      user ← read (byte header 1)
      pass_len ← read 1
      pass ← read (byte pass_len 0)
      check_password is_valid user pass)
    else fail (bad_auth_version (byte header 0))

-- Authenticator.Handle
unfoldable pub authenticate : Authenticator → M (Unit {0})
authenticate no_auth = write (5 ∷ 0 ∷ [])
authenticate (user_pass is_valid) = do
  write (5 ∷ 2 ∷ [])
  header ← read 2
  read_user is_valid header

unfoldable pub read_methods : M Bytes
read_methods = do num_methods ← read 1; read (byte num_methods 0)

-- The first of the client's methods that is registered
unfoldable pub first_supported : AuthHandler → Bytes → Option Authenticator
first_supported h [] = none
first_supported h (method ∷ methods) = elim (lookup method h) [
  | some a ↦ some a
  | none ↦ first_supported h methods
]

unfoldable pub authenticate_with : Option Authenticator → M (Unit {0})
authenticate_with (some a) = authenticate a
authenticate_with none = do ignore (write (5 ∷ 255 ∷ [])); fail no_acceptable

-- AuthHandler.Handle
unfoldable pub handle_auth : AuthHandler → M (Unit {0})
handle_auth h = do methods ← read_methods; authenticate_with (first_supported h methods)
