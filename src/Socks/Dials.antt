-- ===== src/Socks/Dials.antt =====
-- The server with a policy that NewPolicy made, from the first byte to the dial.

use cloudflared.Common.{All, ℕ, ◌≡◌, sym, subst, Bool, true, some, List, [], ◌∷◌, arith}
use cloudflared.Access.Policy.{ok, Rule, Policy, new_policy}
use cloudflared.Socks.World.{Event, wrote, wrote_badly, proxied, resolved, dialed, closed, World}
use cloudflared.Access.Decision.{
  decider, all_valid, decision, new_policy_decides, new_policy_checks,
}
use cloudflared.Socks.Keeps.{Permitted}
use cloudflared.Socks.Auth.{AuthHandler}
use cloudflared.Socks.Server.{Network, serve}
use cloudflared.Socks.Enforcement.{permits, Passes, Keeps-serve}
use cloudflared.Common.Int.{pos}
use cloudflared.Common.Bytes.{Bytes}

-- What the configured rules decide about an address and a port.
abbrev pub decided : Bool → List Rule → Bytes → ℕ → Bool
decided default_allow rules ip port = decision default_allow (decider rules ip (pos port))

policy_decided :
    (default_allow : Bool) (rules : List Rule) (p : Policy)
    → new_policy default_allow rules ≡ ok p
    → (ip : Bytes) (port : ℕ) → permits p ip port ≡ true
    → decided default_allow rules ip port ≡ true
policy_decided default_allow rules p made ip port h =
    let valid : all_valid rules ≡ true = ground (arith, new_policy_checks default_allow rules) in
    let (q, made_q, e) = new_policy_decides default_allow rules ip (pos port) valid in
    let same : q ≡ p = ground (arith, made_q) in ground (arith, e, same)

weaken :
    (f g : Bytes → Type 0)
    → ((a : Bytes) → f a → g a)
    → (log : List Event) → All (Permitted f) log
    → All (Permitted g) log
weaken f g k [] h = tt
weaken f g k (dialed a ∷ log) h = (k a h.0, weaken f g k log h.1)
weaken f g k (wrote bs ∷ log) h = (tt, weaken f g k log h.1)
weaken f g k (wrote_badly bs ∷ log) h = (tt, weaken f g k log h.1)
weaken f g k (proxied bs ∷ log) h = (tt, weaken f g k log h.1)
weaken f g k (resolved name ∷ log) h = (tt, weaken f g k log h.1)
weaken f g k (closed ∷ log) h = (tt, weaken f g k log h.1)

-- Whatever a client sends, and whatever the network answers, a server whose policy NewPolicy made
-- of the configured rules dials only what those rules allow: every address that Serve gives to Dial
-- is the text of an IP and a port for which the first configured rule about them, or the default,
-- allows; or, where the IP that they allow with the port is empty, of a name and that port.
pub serve_dials :
    (net : Network) (auth : AuthHandler) (default_allow : Bool) (rules : List Rule) (p : Policy)
    (w : World)
    → new_policy default_allow rules ≡ ok p
    → w.log ≡ []
    → All (Permitted (Passes net (decided default_allow rules))) (serve net auth (some p) w).1.log
serve_dials net auth default_allow rules p w made fresh =
    weaken (Passes net (permits p)) (Passes net (decided default_allow rules))
      (λ a (ip, port, h, is). (ip, port, policy_decided default_allow rules p made ip port h, is))
      (serve net auth (some p) w).1.log
      ((Keeps-serve net p auth).at w
        (subst (λ l. All (Permitted (Passes net (permits p))) l) (sym fresh) tt))
