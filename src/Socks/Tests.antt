-- ===== src/Socks/Tests.antt =====
-- A server, a client, and a network in which every dial succeeds.

use cloudflared.Common.{All, ◌≡◌, refl, inl, true, false, none, some, List, [], ◌∷◌, ◌++◌, arith}
use cloudflared.Socks.World.{
  AddrSpec, ok, wrote, proxied, dialed, closed, World, ◌>>=◌, return, fail, read, write,
}
use cloudflared.Socks.Enforcement.{Passes}
use cloudflared.Common.Bytes.{Bytes, str, bytes_eq_inst}
use cloudflared.Common.Int.{pos}
use cloudflared.Common.Map.{nat_eq, lookup}
use cloudflared.Access.Net.{to4, IpNet}
use cloudflared.Access.Ports.{insert_sorted, sort_ints}
use cloudflared.Socks.Address.{
  read_port, read_host, read_addr_spec, with_dest, request_of, new_request, address_body, message,
  write_message, send_reply, address,
}
use cloudflared.Socks.Auth.{
  new_auth_handler, authenticate, read_methods, first_supported, authenticate_with, handle_auth,
}
use cloudflared.Socks.Server.{
  connected, Network, copy_result, proxy, closing, after_dial, dial_at, dial_target, check_access,
  handle_connect, handle, after_version, serve,
}
use cloudflared.Socks.Keeps.{Permitted}
use cloudflared.Socks.RoundTrip.{wire_form, new_request-send_reply}
use cloudflared.Socks.Dials.{decided, serve_dials}
use cloudflared.Socks.Handshake.{greeting, serve_handles}
use cloudflared.Access.Policy as Access

abbrev local : AddrSpec
local = record { fqdn = []; ip = 127 ∷ 0 ∷ 0 ∷ 1 ∷ []; port = 4000 }

abbrev network : Network
network = record {
  resolve = λ name log. some (10 ∷ 0 ∷ 0 ∷ 7 ∷ []);
  dial = λ a log. connected (some local);
  ip_string = λ ip. ip;
  join = λ host port. host;
  copies = λ log. (none, none);
}

abbrev ten_net : IpNet
ten_net = record { ip = 10 ∷ 0 ∷ 0 ∷ 0 ∷ []; mask = 255 ∷ 0 ∷ 0 ∷ 0 ∷ [] }

abbrev rules : List Access.Rule
rules = record { ip_net = some ten_net; ports = pos 443 ∷ pos 80 ∷ []; allow = true } ∷ []

abbrev policy : Access.Policy
policy = record {
  default_allow = false;
  rules = record { ip_net = some ten_net; ports = pos 80 ∷ pos 443 ∷ []; allow = true } ∷ [];
}

abbrev host : AddrSpec
host = record { fqdn = str "ab"; ip = []; port = 443 }

abbrev hello : Bytes
hello = 5 ∷ 1 ∷ 0 ∷ 5 ∷ 1 ∷ 0 ∷ 3 ∷ 2 ∷ 97 ∷ 98 ∷ 1 ∷ 187 ∷ 22 ∷ []

abbrev start : World
start = record { input = hello; log = []; accepts = λ log. true }

made : Access.new_policy false rules ≡ Access.Result.ok policy
unfolding Access.new_policy Access.policy_of Access.validate_all Access.validate Access.port_error
    Access.validated Access.first_invalid Access.and_rule sort_ints insert_sorted
made = refl

answered :
    (serve network new_auth_handler none start).1.log
    ≡ closed
      ∷ proxied (22 ∷ [])
      ∷ wrote (5 ∷ 0 ∷ 0 ∷ 1 ∷ 127 ∷ 0 ∷ 0 ∷ 1 ∷ 15 ∷ 160 ∷ [])
      ∷ dialed (str "ab")
      ∷ wrote (5 ∷ 0 ∷ [])
      ∷ []
unfolding serve after_version handle_auth read_methods read write first_supported new_auth_handler
    lookup authenticate_with authenticate new_request request_of read_addr_spec read_host read_port
    handle handle_connect check_access dial_target dial_at address after_dial closing proxy
    copy_result send_reply write_message message address_body return fail ◌>>=◌ to4
answered = refl

new_request-send_reply_example :
    (msg : Bytes) × (send_reply 1 (some host) start
      ≡ (ok tt, record start { log = wrote msg ∷ [] }))
    × (new_request (record start { input = msg ++ 22 ∷ [] })
        ≡ (ok (with_dest 1 (wire_form host)), record start { input = 22 ∷ [] }))
new_request-send_reply_example =
    new_request-send_reply 1 host (22 ∷ []) start (omega arith, omega arith, inl (omega arith)) refl

serve_dials_example :
    All
      (Permitted (Passes network (decided false rules)))
      (serve network new_auth_handler (some policy) start).1.log
serve_dials_example = serve_dials network new_auth_handler false rules policy start made refl

serve_handles_example :
    serve network new_auth_handler
      (some policy)
      (record start { input = greeting (0 ∷ []) (message 1 (3, 2 ∷ str "ab", 443) ++ 22 ∷ []) })
    ≡ handle network
        (some policy)
        (with_dest 1 (wire_form host))
        (record start { input = 22 ∷ []; log = wrote (5 ∷ 0 ∷ []) ∷ [] })
serve_handles_example =
    serve_handles network (some policy) (0 ∷ []) (22 ∷ []) 1 host (3, 2 ∷ str "ab", 443) start refl
      (omega arith, omega arith, inl (omega arith)) (unfold address_body in refl) refl
