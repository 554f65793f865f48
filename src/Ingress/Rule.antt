-- ===== src/Ingress/Rule.antt =====
-- ingress/ingress.go, ingress/rule.go: rules, their hostnames and paths, and their validation. A
-- compiled path is its MatchString. The services behind the rules do not matter here.

use cloudflared.Common.{
  ltb, ◌==◌, if◌then◌else◌, is_some, length, get_elem?, take, drop, ℕ, ◌+◌, ◌-◌, Bool, true, false,
  ◌&&◌, ◌||◌, not, Option, none, some, List, [], ◌∷◌,
}
use cloudflared.Common.Bytes.{
  Bytes, bytes_eq, has_prefix, trim_prefix, has_suffix, index_byte, last_index,
}
use cloudflared.Common.Int.{ℤ, pos, negsuc}

-- A rule's MatchString is there when its Path is not nil.
pub record Rule : Type 0 where
  pub hostname : Bytes
  pub punycode_hostname : Bytes
  pub path : Option (Bytes → Bool)

abbrev pub has_byte : ℕ → Bytes → Bool
has_byte c s = is_some (index_byte c s)

-- net.SplitHostPort: the host, or none for its errors. ':' is 58, '[' is 91, ']' is 93.
unfoldable pub split_bracketed : Bytes → ℕ → Option Bytes
split_bracketed s i = elim (index_byte 93 s) [
  | none ↦ none
  | some end ↦
      if end + 1 == i
      then if has_byte 91 (drop 1 s) || has_byte 93 (drop (end + 1) s)
        then none
        else some (drop 1 (take end s))
      else none
]

unfoldable pub split_plain : Bytes → ℕ → Option Bytes
split_plain s i =
    if has_byte 58 (take i s) || has_byte 91 s || has_byte 93 s then none else some (take i s)

unfoldable pub split_host_port : Bytes → Option Bytes
split_host_port s = elim (last_index 58 s) [
  | none ↦ none
  | some i ↦ if has_prefix s (91 ∷ []) then split_bracketed s i else split_plain s i
]

-- matchHost; "*" is 42 and "." is 46.
unfoldable pub match_host : Bytes → Bytes → Bool
match_host rule_host req_host =
    if bytes_eq rule_host req_host
    then true
    else if has_prefix rule_host (42 ∷ 46 ∷ [])
    then has_suffix req_host (trim_prefix rule_host (42 ∷ []))
    else false

-- `h == "" || h == "*"`
abbrev pub is_any_host : Bytes → Bool
is_any_host h = bytes_eq h [] || bytes_eq h (42 ∷ [])

abbrev pub path_matches : Option (Bytes → Bool) → Bytes → Bool
path_matches none path = true
path_matches (some match_string) path = match_string path

-- Rule.Matches
unfoldable pub matches : Rule → Bytes → Bytes → Bool
matches r hostname path =
    ((is_any_host r.hostname || match_host r.hostname hostname)
      || (not (bytes_eq r.punycode_hostname []) && match_host r.punycode_hostname hostname))
    && path_matches r.path path

-- The loops of FindMatchingRule; i counts the rules passed.
unfoldable pub first_match : Bytes → Bytes → List Rule → ℕ → Option (Rule × ℕ)
first_match hostname path [] i = none
first_match hostname path (r ∷ rs) i =
    let rest = first_match hostname path rs (i + 1) in
    if matches r hostname path then some (r, i) else rest

-- The rule after the loops; `none` is the panic of an index below 0.
unfoldable pub last_rule : List Rule → Option (Rule × ℤ)
last_rule rules = elim (get_elem? rules (length rules - 1)) [
  | none ↦ none
  | some r ↦ some (r, pos (length rules - 1))
]

-- The request's hostname without its port
unfoldable pub host_of : Bytes → Bytes
host_of hostname = elim (split_host_port hostname) [ none ↦ hostname | some host ↦ host ]

-- The result, from those of the two loops.
unfoldable pub rule_of : Option (Rule × ℕ) → Option (Rule × ℕ) → List Rule → Option (Rule × ℤ)
rule_of (some (r, i)) in_rules rules = some (r, negsuc i)
rule_of none (some (r, i)) rules = some (r, pos i)
rule_of none none rules = last_rule rules

unfoldable pub find_matching_rule : List Rule → List Rule → Bytes → Bytes → Option (Rule × ℤ)
find_matching_rule internal rules hostname path =
    rule_of (first_match (host_of hostname) path internal 0)
      (first_match (host_of hostname) path rules 0) rules

-- The hostname and the path of a config.UnvalidatedIngressRule
pub record UnvalidatedIngressRule : Type 0 where
  pub hostname : Bytes
  pub path : Bytes

pub data HostnameError : Type 0 where
  hostname_contains_port bad_wildcard last_rule_not_catch_all : HostnameError
  rule_should_not_be_catch_all : HostnameError

abbrev pub is_catch_all : UnvalidatedIngressRule → Bool
is_catch_all r = is_any_host r.hostname && bytes_eq r.path []

abbrev pub is_after_first : Option ℕ → Bool
is_after_first none = false
is_after_first (some i) = ltb 0 i

-- validateHostname: its error, or none.
unfoldable pub validate_hostname : UnvalidatedIngressRule → ℕ → ℕ → Option HostnameError
validate_hostname r rule_index total_rules =
    if is_some (split_host_port r.hostname)
    then some hostname_contains_port
    else if is_after_first (last_index 42 r.hostname)
    then some bad_wildcard
    else if (rule_index + 1 == total_rules) && not (is_catch_all r)
    then some last_rule_not_catch_all
    else if not (rule_index + 1 == total_rules) && is_catch_all r
    then some rule_should_not_be_catch_all
    else none

-- One turn of the loop of validateIngress before what the later turns give.
unfoldable pub one_more :
    Option HostnameError → Option Rule → Option (List Rule) → Option (List Rule)
one_more (some e) rule rest = none
one_more none none rest = none
one_more none (some rule) none = none
one_more none (some rule) (some rules) = some (rule ∷ rules)

-- The part of validateIngress on hostnames and paths, with idna.Lookup.ToASCII and regexp.Compile as
-- arguments.
module _ (to_ascii : Bytes → Option Bytes) (compile : Bytes → Option (Bytes → Bool)) where
  unfoldable pub punycode_of : UnvalidatedIngressRule → Bytes
  punycode_of r = if is_catch_all r then [] else elim (to_ascii r.hostname) [
    | none ↦ []
    | some punycode ↦ if bytes_eq punycode r.hostname then [] else punycode
  ]

  unfoldable pub build_rule : UnvalidatedIngressRule → Option Rule
  build_rule r =
      if bytes_eq r.path []
      then some (record { hostname = r.hostname; punycode_hostname = punycode_of r; path = none })
      else elim (compile r.path) [
        | none ↦ none
        | some match_string ↦ some (record {
          hostname = r.hostname;
          punycode_hostname = punycode_of r;
          path = some match_string;
        })
      ]

  unfoldable pub validate_rules : ℕ → ℕ → List UnvalidatedIngressRule → Option (List Rule)
  validate_rules i total [] = some []
  validate_rules i total (r ∷ rs) =
      one_more (validate_hostname r i total) (build_rule r) (validate_rules (i + 1) total rs)
