-- ===== src/Access/Tests.antt =====
-- A policy of two rules, as config.yml may give them.

use cloudflared.Common.{◌≡◌, refl, true, false, none, some, List, [], ◌∷◌}
use cloudflared.Common.Bytes.{Bytes, bytes_eq}
use cloudflared.Common.Int.{pos}
use cloudflared.Access.Net.{to4, IpNet, masked_eq, number_and_mask, contains}
use cloudflared.Access.Ports.{elem}
use cloudflared.Access.Policy.{
  no_prefix, ok, Rule, Policy, zero_rule, new_rule_by_cidr, new_policy, allowed,
}
use cloudflared.Access.Decision.{
  sorted, decider, all_valid, decision, new_policy_decides, is_ok, new_policy_checks,
}

abbrev ten_net : IpNet
ten_net = record { ip = 10 ∷ 0 ∷ 0 ∷ 0 ∷ []; mask = 255 ∷ 0 ∷ 0 ∷ 0 ∷ [] }

abbrev any_net : IpNet
any_net = record { ip = 0 ∷ 0 ∷ 0 ∷ 0 ∷ []; mask = 0 ∷ 0 ∷ 0 ∷ 0 ∷ [] }

abbrev rules : List Rule
rules =
    record { ip_net = some ten_net; ports = pos 443 ∷ pos 80 ∷ []; allow = true }
    ∷ record { ip_net = some any_net; ports = pos 22 ∷ []; allow = false }
    ∷ []

-- 10.1.2.3 in its sixteen bytes
abbrev inside : Bytes
inside = 0 ∷ 0 ∷ 0 ∷ 0 ∷ 0 ∷ 0 ∷ 0 ∷ 0 ∷ 0 ∷ 0 ∷ 255 ∷ 255 ∷ 10 ∷ 1 ∷ 2 ∷ 3 ∷ []

inside_is_contained : contains ten_net inside ≡ true
unfolding contains number_and_mask to4 bytes_eq masked_eq
inside_is_contained = refl

decides_inside :
    decider rules inside (pos 80)
    ≡ some (sorted (record { ip_net = some ten_net; ports = pos 443 ∷ pos 80 ∷ []; allow = true }))
unfolding decider contains number_and_mask to4 bytes_eq masked_eq elem
decides_inside = refl

no_prefix_given : new_rule_by_cidr (λ s. none) (some []) [] true ≡ (zero_rule, some no_prefix)
unfolding new_rule_by_cidr
no_prefix_given = refl

new_policy_decides_example :
    (p : Policy) × (new_policy false rules ≡ ok p)
    × (allowed p inside (pos 80)
        ≡ some (decision false (decider rules inside (pos 80)), decider rules inside (pos 80)))
new_policy_decides_example = new_policy_decides false rules inside (pos 80) refl

new_policy_checks_example : is_ok (new_policy true rules) ≡ all_valid rules
new_policy_checks_example = new_policy_checks true rules
