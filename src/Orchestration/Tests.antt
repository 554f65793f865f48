-- ===== src/Orchestration/Tests.antt =====
-- The theorems of the orchestrator on two updates, the second of them stale.

use cloudflared.Common.{
  ◌==◌, ℕ, ◌≡◌, refl, Bool, true, false, not, Option, none, some, List, [], ◌∷◌,
}
use cloudflared.Common.Int.{ℤ, pos, negsuc, ◌≤ℤ◌, leb_ℤ}
use cloudflared.Orchestration.Updates.{
  RuleSet, Parts, Orchestrator, start_origins, completed, install, update_ingress, updated,
  reply_of, update_config, new_orchestrator, run_updates,
}
use cloudflared.Orchestration.Versions.{
  IsCoherent, Decides, update_config_replies, run_updates-new-IsCoherent,
}

-- A rule is a number, which starts unless it is 9; a configuration of one byte is one rule.
abbrev byte_rules : List ℕ → Option (RuleSet ℕ × Bool)
byte_rules (b ∷ []) = some (record { internal_rules = []; rules = b ∷ [] }, true)
byte_rules _ = none

abbrev byte_parts : Parts ℕ Bool
byte_parts = record {
  unmarshal = byte_rules;
  starts = λ r. not (r == 9);
  default_rules = 503 ∷ [];
  enabled = λ w. w;
}

abbrev first : Orchestrator ℕ Bool
first = record {
  current_version = negsuc 0;
  internal_rules = 1 ∷ [];
  config = (record { internal_rules = 1 ∷ []; rules = 503 ∷ [] }, false);
  proxy = some (record { internal_rules = 1 ∷ []; rules = 503 ∷ [] }, false);
  warp_routing_enabled = false;
  proxy_shutdown = some 0;
  proxies_made = 1;
  closed = [];
}

made :
    new_orchestrator byte_parts (1 ∷ []) (record { internal_rules = []; rules = [] }, false) false
    ≡ some first
unfolding new_orchestrator update_ingress completed start_origins install
made = refl

-- A service that does not start leaves the version as it was.
kept : update_config byte_parts first false (pos 3) (9 ∷ []) ≡ (first, (negsuc 0, true))
unfolding update_config updated reply_of update_ingress completed start_origins
kept = refl

update_config_replies_example :
    let (o', (last, failed)) = update_config byte_parts first false (pos 3) (7 ∷ []) in
    (last ≡ o'.current_version)
    × (first.current_version ≤ℤ o'.current_version)
    × (pos 3 ≤ℤ first.current_version → (o' ≡ first) × (failed ≡ false))
    × (leb_ℤ (pos 3) first.current_version ≡ false
        → Decides byte_parts first
            (pos 3)
            false
            (byte_parts.unmarshal (7 ∷ []))
            (update_config byte_parts first false (pos 3) (7 ∷ [])))
update_config_replies_example = update_config_replies byte_parts first false (pos 3) (7 ∷ [])

abbrev two_updates : List (ℤ × List ℕ)
two_updates = (pos 3, 7 ∷ []) ∷ (pos 2, 8 ∷ []) ∷ []

run_updates-new-IsCoherent_example :
    IsCoherent byte_parts (run_updates byte_parts first two_updates)
    × (negsuc 0 ≤ℤ (run_updates byte_parts first two_updates).current_version)
run_updates-new-IsCoherent_example =
    run_updates-new-IsCoherent byte_parts (1 ∷ []) (record { internal_rules = []; rules = [] })
      false first two_updates made
