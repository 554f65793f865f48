-- ===== src/Socks/Steps.antt =====
-- The handshake and the replies dial nothing, socks/request.go and socks/auth_handler.go.

use cloudflared.Common.{ℕ, Bool, Option, none, some}
use cloudflared.Socks.World.{AddrSpec}
use cloudflared.Socks.Keeps.{Keeps, keeps_rules}
use cloudflared.Socks.Address.{
  read_port, read_host, read_addr_spec, request_of, new_request, address_body, write_message,
  send_reply,
}
use cloudflared.Socks.Auth.{
  Authenticator, no_auth, user_pass, AuthHandler, check_password, read_user, authenticate,
  read_methods, authenticate_with, handle_auth,
}
use cloudflared.Common.Bytes.{Bytes}

module _ {test : Bytes → Type 0} where
  Keeps-read_port : (fqdn ip : Bytes) → Keeps test (read_port fqdn ip)
  unfolding read_port
  Keeps-read_port fqdn ip = search keeps_rules

  Keeps-read_host : (addr_type : ℕ) → Keeps test (read_host addr_type)
  unfolding read_host
  Keeps-read_host addr_type = search (keeps_rules, Keeps-read_port) depth 12

  Keeps-read_addr_spec : Keeps test read_addr_spec
  unfolding read_addr_spec
  Keeps-read_addr_spec = search (keeps_rules, Keeps-read_host)

  pub Keeps-new_request : Keeps test new_request
  unfolding new_request request_of
  Keeps-new_request = search (keeps_rules, Keeps-read_addr_spec)

  Keeps-write_message :
      (resp : ℕ) (parts : Option (ℕ × Bytes × ℕ)) → Keeps test (write_message resp parts)
  unfolding write_message
  Keeps-write_message resp none = search keeps_rules
  Keeps-write_message resp (some parts) = search keeps_rules

  pub Keeps-send_reply : (resp : ℕ) (addr : Option AddrSpec) → Keeps test (send_reply resp addr)
  unfolding send_reply
  Keeps-send_reply resp addr = Keeps-write_message resp (address_body addr)

  Keeps-check_password :
      (check : Bytes → Bytes → Bool) (user pass : Bytes)
      → Keeps test (check_password check user pass)
  unfolding check_password
  Keeps-check_password check user pass = search keeps_rules

  Keeps-authenticate : (a : Authenticator) → Keeps test (authenticate a)
  unfolding authenticate read_user
  Keeps-authenticate no_auth = search keeps_rules
  Keeps-authenticate (user_pass check) = search (keeps_rules, Keeps-check_password) depth 12

  Keeps-authenticate_with : (a : Option Authenticator) → Keeps test (authenticate_with a)
  unfolding authenticate_with
  Keeps-authenticate_with none = search keeps_rules
  Keeps-authenticate_with (some a) = Keeps-authenticate a

  pub Keeps-handle_auth : (h : AuthHandler) → Keeps test (handle_auth h)
  unfolding handle_auth read_methods
  Keeps-handle_auth h = search (keeps_rules, Keeps-authenticate_with)

pub ruleset step_rules = (keeps_rules, Keeps-send_reply, Keeps-handle_auth, Keeps-new_request)
