-- ===== src/Access/Policy.antt =====
-- ipaccess/access.go: rules, their validation, and the decision of a policy. net.ParseCIDR is an
-- argument. A slice that Validate sorts in place is sorted in the rule that is returned.

use cloudflared.Common.{if◌then◌else◌, Bool, true, false, ◌||◌, Option, none, some, List, [], ◌∷◌}
use cloudflared.Common.Bytes.{Bytes}
use cloudflared.Common.Int.{ℤ, pos, ltb_ℤ}
use cloudflared.Access.Net.{IpNet, contains}
use cloudflared.Access.Ports.{sort_ints, has_port}

pub data Error : Type 0 where
  no_ip_net no_prefix : Error
  invalid_port : ℤ → Error
  unparsed : Bytes → Error

pub data Result {ℓ} (A : Type ℓ) : Type ℓ where
  ok : A → Result A
  err : Error → Result A

-- A nil ipNet is none.
pub record Rule : Type 0 where
  pub ip_net : Option IpNet
  pub ports : List ℤ
  pub allow : Bool

pub record Policy : Type 0 where
  pub default_allow : Bool
  pub rules : List Rule

-- `port < 1 || port > 65535`
abbrev pub is_invalid_port : ℤ → Bool
is_invalid_port p = ltb_ℤ p (pos 1) || ltb_ℤ (pos 65535) p

-- The loop over the sorted ports
unfoldable pub first_invalid : List ℤ → Option ℤ
first_invalid [] = none
first_invalid (p ∷ ps) = if is_invalid_port p then some p else first_invalid ps

unfoldable pub port_error : Option ℤ → Option Error
port_error (some port) = some (invalid_port port)
port_error none = none

-- Validate: the rule, its ports sorted in place, and the error
unfoldable pub validate : Rule → Rule × Option Error
validate r = elim r.ip_net [
  | none ↦ (r, some no_ip_net)
  | some net ↦
      (record r { ports = sort_ints r.ports }, port_error (first_invalid (sort_ints r.ports)))
]

unfoldable pub new_rule : Option IpNet → List ℤ → Bool → Rule × Option Error
new_rule ip_net ports allow = validate (record { ip_net = ip_net; ports = ports; allow = allow })

-- Rule{}
abbrev pub zero_rule : Rule
zero_rule = record { ip_net = none; ports = []; allow = false }

-- NewRuleByCIDR; a nil prefix is none.
unfoldable pub new_rule_by_cidr :
    (Bytes → Option IpNet) → Option Bytes → List ℤ → Bool → Rule × Option Error
new_rule_by_cidr parse_cidr none ports allow = (zero_rule, some no_prefix)
new_rule_by_cidr parse_cidr (some []) ports allow = (zero_rule, some no_prefix)
new_rule_by_cidr parse_cidr (some (c ∷ cs)) ports allow = elim (parse_cidr (c ∷ cs)) [
  | none ↦ (zero_rule, some (unparsed (c ∷ cs)))
  | some net ↦ new_rule (some net) ports allow
]

unfoldable pub and_rule : Rule → Result (List Rule) → Result (List Rule)
and_rule r (ok rs) = ok (r ∷ rs)
and_rule r (err e) = err e

unfoldable pub validated : Rule × Option Error → Result (List Rule) → Result (List Rule)
validated (r, some e) rest = err e
validated (r, none) rest = and_rule r rest

-- The loop of NewPolicy
unfoldable pub validate_all : List Rule → Result (List Rule)
validate_all [] = ok []
validate_all (r ∷ rs) = validated (validate r) (validate_all rs)

unfoldable pub policy_of : Bool → Result (List Rule) → Result Policy
policy_of default_allow (err e) = err e
policy_of default_allow (ok rs) = ok (record { default_allow = default_allow; rules = rs })

unfoldable pub new_policy : Bool → List Rule → Result Policy
new_policy default_allow rules = policy_of default_allow (validate_all rules)

-- `len(rule.ports) == 0`, or the port is found
unfoldable pub covers_port : List ℤ → ℤ → Bool
covers_port [] port = true
covers_port (p ∷ ps) port = has_port (p ∷ ps) port

unfoldable pub allowed_or :
    Bool → Rule → Bool → Option (Bool × Option Rule) → Option (Bool × Option Rule)
allowed_or true r true rest = some (r.allow, some r)
allowed_or true r false rest = rest
allowed_or false r port_hit rest = rest

-- The loop of Allowed; `none` is the panic on a rule with no ipNet.
unfoldable pub first_allowed : Bool → List Rule → Bytes → ℤ → Option (Bool × Option Rule)
first_allowed default_allow [] ip port = some (default_allow, none)
first_allowed default_allow (r ∷ rs) ip port = elim r.ip_net [
  | none ↦ none
  | some net ↦
      allowed_or (contains net ip) r (covers_port r.ports port)
        (first_allowed default_allow rs ip port)
]

unfoldable pub allowed : Policy → Bytes → ℤ → Option (Bool × Option Rule)
allowed h ip port = first_allowed h.default_allow h.rules ip port
