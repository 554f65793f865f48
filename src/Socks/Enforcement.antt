-- ===== src/Socks/Enforcement.antt =====
-- socks/*.go with ipaccess/access.go: the policy stands before every dial.

-- The answer of a policy, false where it panics.
use cloudflared.Common.{
  ◌==◌, Bool-cases, length, ℕ, ◌≡◌, refl, ap, subst, ◌⊎◌, inl, inr, Bool, true, false, Option, none,
  some, [], ◌∷◌, arith,
}
use cloudflared.Socks.World.{
  AddrSpec, ok, resolved, World, M, ◌>>=◌, return, fail, ignore, bind_inversion, result_or,
}
use cloudflared.Socks.Keeps.{IsWithin, Keeps, Keeps-return, Keeps-bind_of, keeps_rules}
use cloudflared.Socks.Steps.{Keeps-new_request, Keeps-send_reply, Keeps-handle_auth}
use cloudflared.Socks.Address.{Request, address}
use cloudflared.Socks.Auth.{AuthHandler}
use cloudflared.Socks.Server.{
  Dialed, failed, connected, Network, copy_result, proxy, closing, after_dial, dial_at, dial_target,
  resolved_as, resolve_dest, permit, ask_policy, check_access, handle_connect, not_supported,
  handle, after_version, serve,
}
use cloudflared.Access.Policy.{Rule, Policy, allowed}
use cloudflared.Common.Int.{pos}
use cloudflared.Common.Bytes.{Bytes}

abbrev pub answer : Option (Bool × Option Rule) → Bool
answer none = false
answer (some (b, r)) = b

abbrev pub permits : Policy → Bytes → ℕ → Bool
permits p ip port = answer (allowed p ip (pos port))

-- The address is the text of an IP and a port that pass; or the IP that passes is empty, and then it
-- is that of a name.
abbrev pub Passes : Network → (Bytes → ℕ → Bool) → Bytes → Type 0
Passes net passing a =
    (ip : Bytes) × (port : ℕ) × (passing ip port ≡ true)
    × ((a ≡ net.join (net.ip_string ip) port)
        ⊎ ((ip ≡ []) × (name : Bytes) × (a ≡ net.join name port)))

module _ (net : Network) where
  empty_ip : (ip : Bytes) → length ip == 0 ≡ true → ip ≡ []
  empty_ip [] h = refl
  empty_ip (b ∷ bs) h = ground (arith, h)

  address-Passes :
      (passing : Bytes → ℕ → Bool) (d : AddrSpec)
      → passing d.ip d.port ≡ true
      → Passes net passing (address net.ip_string net.join d)
  unfolding address
  address-Passes passing d h = elim (Bool-cases (length d.ip == 0)) [
    | inl e ↦ (d.ip, d.port, h, inr (empty_ip d.ip e, d.fqdn, rw e refl))
    | inr e ↦ (d.ip, d.port, h, inl (rw e refl))
  ]

  permit_ok :
      (dest d : AddrSpec) (a : Option (Bool × Option Rule)) (w : World)
      → (permit net dest a w).0 ≡ ok d
      → (answer a ≡ true) × (dest ≡ d)
  unfolding permit fail return ignore ◌>>=◌
  permit_ok dest d none w e = cc
  permit_ok dest d (some (true, r)) w e = (refl, ap (result_or dest) e)
  permit_ok dest d (some (false, r)) w e = cc

  module _ {test : Bytes → Type 0} where
    Keeps-copy_result : (r : Option Bytes × Option Bytes) → Keeps test (copy_result r)
    unfolding copy_result
    Keeps-copy_result (some msg, second) = search keeps_rules
    Keeps-copy_result (none, some msg) = search keeps_rules
    Keeps-copy_result (none, none) = search keeps_rules

    Keeps-proxy : Keeps test (proxy net)
    unfolding proxy
    Keeps-proxy = record { at = λ w h. (Keeps-copy_result (net.copies w.log)).at _ (tt, h) }

    Keeps-closing : (m : M (Unit {0})) → Keeps test m → Keeps test (closing net m)
    unfolding closing
    Keeps-closing m k = record { at = λ w h. (tt, k.at w h) }

    Keeps-after_dial : (d : Dialed) → Keeps test (after_dial net d)
    unfolding after_dial
    Keeps-after_dial (failed msg) = search (keeps_rules, Keeps-send_reply)
    Keeps-after_dial (connected local) =
        search (keeps_rules, Keeps-send_reply, Keeps-closing, Keeps-proxy)

    Keeps-dial_at : (a : Bytes) → test a → Keeps test (dial_at net a)
    unfolding dial_at
    Keeps-dial_at a h = record { at = λ w k. (Keeps-after_dial _).at _ (h, k) }

    Keeps-resolved_as : (d : AddrSpec) (ip : Option Bytes) → Keeps test (resolved_as net d ip)
    unfolding resolved_as
    Keeps-resolved_as d none = search (keeps_rules, Keeps-send_reply)
    Keeps-resolved_as d (some ip) = search keeps_rules

  Keeps_resolving :
      (test : Bytes → Type 0) (d : AddrSpec) (w : World)
      → IsWithin test w
      → (length d.ip == 0 ≡ true) ⊎ (length d.ip == 0 ≡ false)
      → IsWithin test (resolve_dest net d w).1
  unfolding resolve_dest
  Keeps_resolving test d w h (inl e) = rw e (
      (Keeps-resolved_as d (net.resolve d.fqdn w.log)).at
        (record w { log = resolved d.fqdn ∷ w.log }) (tt, h))
  Keeps_resolving test d w h (inr e) = rw e ((Keeps-return d).at w h)

  module _ {test : Bytes → Type 0} where
    Keeps-resolve_dest : (d : AddrSpec) → Keeps test (resolve_dest net d)
    unfolding resolve_dest
    Keeps-resolve_dest d = record {
      at = λ w h. Keeps_resolving test d w h (Bool-cases (length d.ip == 0));
    }

    Keeps-permit : (d : AddrSpec) (a : Option (Bool × Option Rule)) → Keeps test (permit net d a)
    unfolding permit
    Keeps-permit d none = search keeps_rules
    Keeps-permit d (some (true, r)) = search keeps_rules
    Keeps-permit d (some (false, r)) = search (keeps_rules, Keeps-send_reply)

  module _ (p : Policy) where
    check_access-permits :
        (dest d : AddrSpec) (w : World)
        → (check_access net (some p) dest w).0 ≡ ok d
        → permits p d.ip d.port ≡ true
    unfolding check_access ask_policy
    check_access-permits dest d w e =
        let (a, mid, e1, e2) = bind_inversion (resolve_dest net dest) (ask_policy net p) w e in
        let (yes_a, same) = permit_ok a d (allowed p a.ip (pos a.port)) mid e2 in
        subst (λ t. permits p t.ip t.port ≡ true) same yes_a

    Keeps-dial_target :
        (d : AddrSpec)
        → permits p d.ip d.port ≡ true
        → Keeps (Passes net (permits p)) (dial_target net d)
    unfolding dial_target
    Keeps-dial_target d h = Keeps-dial_at _ (address-Passes (permits p) d h)

    Keeps-handle_connect :
        (dest : AddrSpec) → Keeps (Passes net (permits p)) (handle_connect net (some p) dest)
    unfolding handle_connect check_access ask_policy
    Keeps-handle_connect dest =
        Keeps-bind_of (check_access net (some p) dest) (dial_target net)
          (search (keeps_rules, Keeps-resolve_dest, Keeps-permit))
          (λ w d e. Keeps-dial_target d (check_access-permits dest d w e))

    Keeps-handle : (req : Request) → Keeps (Passes net (permits p)) (handle net (some p) req)
    unfolding handle not_supported
    Keeps-handle req = search (keeps_rules, Keeps-handle_connect, Keeps-send_reply) depth 12

    pub Keeps-serve :
        (auth : AuthHandler) → Keeps (Passes net (permits p)) (serve net auth (some p))
    unfolding serve after_version
    Keeps-serve auth =
        search (keeps_rules, Keeps-handle_auth, Keeps-new_request, Keeps-handle) depth 12
