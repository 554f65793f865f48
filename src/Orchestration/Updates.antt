-- ===== src/Orchestration/Updates.antt =====
-- orchestration/orchestrator.go: Orchestrator, whose updates run one at a time under its lock. A proxy
-- is known by its ingress and warp routing; channels are numbered by the proxies they were made for.

use cloudflared.Common.{
  if◌then◌else◌, ℕ, ◌+◌, Bool, true, false, ◌&&◌, Option, none, some, List, [], ◌∷◌,
}
use cloudflared.Common.Int.{ℤ, negsuc, leb_ℤ}

-- ingress.Ingress, of rules of type R
pub record RuleSet (R : Type 0) : Type 0 where
  pub internal_rules : List R
  pub rules : List R

-- The parts of the code that are not modelled: json.Unmarshal of a configuration, the start of a
-- rule's service, the default rules, and the Enabled field of a WarpRoutingConfig of type W.
pub record Parts (R W : Type 0) : Type 0 where
  pub unmarshal : List ℕ → Option (RuleSet R × W)
  pub starts : R → Bool
  pub default_rules : List R
  pub enabled : W → Bool

pub record Orchestrator (R W : Type 0) : Type 0 where
  pub current_version : ℤ
  pub internal_rules : List R
  pub config : RuleSet R × W
  pub proxy : Option (RuleSet R × W)
  pub warp_routing_enabled : Bool
  pub proxy_shutdown : Option ℕ
  pub proxies_made : ℕ
  -- The channels that were closed, the last first.
  pub closed : List ℕ

module _ {R W : Type 0} (parts : Parts R W) where
  -- StartOrigins: whether every service starts
  unfoldable pub start_origins : List R → Bool
  start_origins [] = true
  start_origins (r ∷ rs) = parts.starts r && start_origins rs

  abbrev pub or_default : List R → List R
  or_default [] = parts.default_rules
  or_default (r ∷ rs) = r ∷ rs

  -- The ingress of an update: with the internal rules, and the default rules if it has none.
  unfoldable pub completed : Orchestrator R W → RuleSet R → RuleSet R
  completed o ingress = record {
    internal_rules = o.internal_rules;
    rules = or_default ingress.rules;
  }

  abbrev pub and_close : Option ℕ → List ℕ → List ℕ
  and_close none closed = closed
  and_close (some c) closed = c ∷ closed

  -- The stores of updateIngress, once the origins have started
  unfoldable pub install : Orchestrator R W → RuleSet R → W → Orchestrator R W
  install o ingress warp = record o {
    config = (ingress, warp);
    proxy = some (ingress, warp);
    warp_routing_enabled = parts.enabled warp;
    proxy_shutdown = some o.proxies_made;
    proxies_made = o.proxies_made + 1;
    closed = and_close o.proxy_shutdown o.closed;
  }

  -- updateIngress, after shutdownC was closed or not; `none` is an error.
  unfoldable pub update_ingress :
      Orchestrator R W → Bool → RuleSet R → W → Option (Orchestrator R W)
  update_ingress o is_shut_down ingress warp =
      if is_shut_down
      then none
      else if start_origins (completed o ingress).rules
      then some (install o (completed o ingress) warp)
      else none

  -- The two calls of UpdateConfig that can fail
  unfoldable pub updated :
      Orchestrator R W → Bool → Option (RuleSet R × W) → Option (Orchestrator R W)
  updated o is_shut_down none = none
  updated o is_shut_down (some (ingress, warp)) = update_ingress o is_shut_down ingress warp

  -- What UpdateConfig makes of their result
  unfoldable pub reply_of :
      Orchestrator R W → ℤ → Option (Orchestrator R W) → Orchestrator R W × (ℤ × Bool)
  reply_of o version none = (o, (o.current_version, true))
  reply_of o version (some o') = (record o' { current_version = version }, (version, false))

  -- UpdateConfig: the orchestrator, LastAppliedVersion, and whether Err is set
  unfoldable pub update_config :
      Orchestrator R W → Bool → ℤ → List ℕ → Orchestrator R W × (ℤ × Bool)
  update_config o is_shut_down version config =
      if leb_ℤ version o.current_version
      then (o, (o.current_version, false))
      else reply_of o version (updated o is_shut_down (parts.unmarshal config))

  -- NewOrchestrator; `none` is an error.
  unfoldable pub new_orchestrator : List R → RuleSet R × W → Bool → Option (Orchestrator R W)
  new_orchestrator internal_rules (ingress, warp) is_shut_down =
      let o : Orchestrator R W = record {
        current_version = negsuc 0;
        internal_rules = internal_rules;
        config = (ingress, warp);
        proxy = none;
        warp_routing_enabled = false;
        proxy_shutdown = none;
        proxies_made = 0;
        closed = [];
      } in
      update_ingress o is_shut_down ingress warp

  -- waitToCloseLastProxy, once shutdownC is closed
  unfoldable pub close_last_proxy : Orchestrator R W → Orchestrator R W
  close_last_proxy o = record o {
    closed = and_close o.proxy_shutdown o.closed;
    proxy_shutdown = none;
  }

  -- Updates, each with its version and its configuration, before a shutdown
  unfoldable pub run_updates : Orchestrator R W → List (ℤ × List ℕ) → Orchestrator R W
  run_updates o [] = o
  run_updates o ((version, config) ∷ us) = run_updates (update_config o false version config).0 us
