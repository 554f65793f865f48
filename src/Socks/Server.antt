-- ===== src/Socks/Server.antt =====
-- socks/connection_handler.go, socks/request_handler.go, socks/dialer.go: a connection from its
-- version byte to the two copies. What the net package does is the record Network.

use cloudflared.Common.{
  ◌==◌, if◌then◌else◌, length, ℕ, ◌⊎◌, inl, inr, Bool, true, false, ◌||◌, Option, none, some, List,
  [], ◌∷◌,
}
use cloudflared.Socks.World.{
  AddrSpec, unresolved, panicked, denied, bad_version, bad_command, connect_failed, copy_failed,
  Event, proxied, resolved, dialed, closed, M, ◌>>=◌, ◌>>◌, return, fail, read, byte, ignore,
}
use cloudflared.Common.Bytes.{Bytes, str, has_prefix}
use cloudflared.Common.Int.{pos}
use cloudflared.Access.Policy.{Rule, Policy, allowed}
use cloudflared.Socks.Address.{Request, new_request, send_reply, address}
use cloudflared.Socks.Auth.{AuthHandler, new_auth_handler, handle_auth}

-- The result of a dial: the message of its error, or the local address.
pub data Dialed : Type 0 where
  failed : Bytes → Dialed
  connected : Option AddrSpec → Dialed

-- resolve is net.ResolveIPAddr, none for its error; copies are the results of the two copies in
-- the order in which they end. All may depend on what happened before.
pub record Network : Type 0 where
  pub resolve : Bytes → List Event → Option Bytes
  pub dial : Bytes → List Event → Dialed
  pub ip_string : Bytes → Bytes
  pub join : Bytes → ℕ → Bytes
  pub copies : List Event → Option Bytes × Option Bytes

-- NetDialer.Dial, with net.Dial and the local address of its connection
unfoldable pub net_dial : (Bytes → List Event → Bytes ⊎ AddrSpec) → Bytes → List Event → Dialed
net_dial dial_tcp a log = elim (dial_tcp a log) [
  | inl msg ↦ failed msg
  | inr local ↦ connected (some local)
]

-- ConnDialer.Dial; the address is none when the connection is not TCP.
unfoldable pub conn_dial : Option AddrSpec → Bytes → List Event → Dialed
conn_dial none a log = failed (str "not a tcp connection")
conn_dial (some local) a log = connected (some local)

-- strings.Contains
unfoldable pub contains_str : Bytes → Bytes → Bool
contains_str [] sub = has_prefix [] sub
contains_str (c ∷ s) sub = has_prefix (c ∷ s) sub || contains_str s sub

unfoldable pub reply_for : Bytes → ℕ
reply_for msg =
    if contains_str msg (str "refused")
    then 5
    else if contains_str msg (str "network is unreachable")
    then 3
    else 4

-- The waits for both copies
unfoldable pub copy_result : Option Bytes × Option Bytes → M (Unit {0})
copy_result (some msg, second) = fail (copy_failed msg)
copy_result (none, some msg) = fail (copy_failed msg)
copy_result (none, none) = return tt

module _ (net : Network) where
  unfoldable pub proxy : M (Unit {0})
  proxy w = copy_result (net.copies w.log) (record w { log = proxied w.input ∷ w.log })

  -- The deferred Close of the target
  unfoldable pub closing : M (Unit {0}) → M (Unit {0})
  closing m w = let (r, w') = m w in (r, record w' { log = closed ∷ w'.log })

  unfoldable pub after_dial : Dialed → M (Unit {0})
  after_dial (failed msg) = do send_reply (reply_for msg) none; fail (connect_failed msg)
  after_dial (connected local) = closing (do send_reply 0 local; proxy)

  -- The call of Dial, with the text of the address
  unfoldable pub dial_at : Bytes → M (Unit {0})
  dial_at a w = after_dial (net.dial a w.log) (record w { log = dialed a ∷ w.log })

  unfoldable pub dial_target : AddrSpec → M (Unit {0})
  dial_target dest = dial_at (address net.ip_string net.join dest)

  unfoldable pub resolved_as : AddrSpec → Option Bytes → M AddrSpec
  resolved_as dest none = do ignore (send_reply 2 (some dest)); fail unresolved
  resolved_as dest (some ip) = return (record dest { ip = ip })

  unfoldable pub resolve_dest : AddrSpec → M AddrSpec
  resolve_dest dest w =
      if length dest.ip == 0
      then resolved_as dest (net.resolve dest.fqdn w.log)
          (record w { log = resolved dest.fqdn ∷ w.log })
      else return dest w

  unfoldable pub permit : AddrSpec → Option (Bool × Option Rule) → M AddrSpec
  permit dest none = fail panicked
  permit dest (some (true, r)) = return dest
  permit dest (some (false, r)) = do ignore (send_reply 2 (some dest)); fail (denied r)

  unfoldable pub ask_policy : Policy → AddrSpec → M AddrSpec
  ask_policy p dest = permit dest (allowed p dest.ip (pos dest.port))

  unfoldable pub check_access : Option Policy → AddrSpec → M AddrSpec
  check_access none dest = return dest
  check_access (some p) dest = do d ← resolve_dest dest; ask_policy p d

  unfoldable pub handle_connect : Option Policy → AddrSpec → M (Unit {0})
  handle_connect policy dest = do d ← check_access policy dest; dial_target d

  -- handleBind and handleAssociate
  unfoldable pub not_supported : M (Unit {0})
  not_supported = send_reply 7 none

  -- RequestHandler.Handle
  unfoldable pub handle : Option Policy → Request → M (Unit {0})
  handle policy req =
      if req.command == 1
      then handle_connect policy req.dest_addr
      else if (req.command == 2) || (req.command == 3)
      then not_supported
      else (do send_reply 7 none; fail (bad_command req.command))

  unfoldable pub after_version : AuthHandler → Option Policy → Bytes → M (Unit {0})
  after_version auth policy version =
      if byte version 0 == 5
      then (do handle_auth auth; req ← new_request; handle policy req)
      else fail (bad_version (byte version 0))

  -- ConnectionHandler.Serve
  unfoldable pub serve : AuthHandler → Option Policy → M (Unit {0})
  serve auth policy = do version ← read 1; after_version auth policy version

  -- StreamNetHandler's server
  unfoldable pub stream_net_handler : Policy → M (Unit {0})
  stream_net_handler policy = serve new_auth_handler (some policy)

-- StreamHandler's server, whose dialer has the one connection that is given
unfoldable pub stream_handler : Network → Option AddrSpec → M (Unit {0})
stream_handler net local = serve (record net { dial = conn_dial local }) new_auth_handler none
