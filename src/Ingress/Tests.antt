-- ===== src/Ingress/Tests.antt =====
-- The ingress theorems on a wildcard rule before a catch-all.

use cloudflared.Common.{ℕ, ◌≡◌, refl, ◌⊎◌, Bool, Option, none, some, List, [], ◌∷◌, arith}
use cloudflared.Common.Bytes.{
  Bytes, str, bytes_eq, has_prefix, trim_prefix, has_suffix, index_byte, last_index,
}
use cloudflared.Common.Int.{pos, negsuc}
use cloudflared.Ingress.Rule.{
  Rule, split_plain, split_host_port, match_host, matches, first_match, host_of, rule_of,
  find_matching_rule, UnvalidatedIngressRule, validate_hostname, one_more, punycode_of, build_rule,
  validate_rules,
}
use cloudflared.Ingress.Matching.{IsFirst, find_matching_rule_validated}

abbrev to_ascii : Bytes → Option Bytes
to_ascii h = some h

abbrev compile : Bytes → Option (Bytes → Bool)
compile p = some (λ path. has_prefix path p)

abbrev configured : List UnvalidatedIngressRule
configured =
    record { hostname = str "*.a.b"; path = str "/x" } ∷ record { hostname = []; path = [] } ∷ []

abbrev built : List Rule
built =
    record {
      hostname = str "*.a.b";
      punycode_hostname = [];
      path = some (λ path. has_prefix path (str "/x"));
    }
    ∷ record { hostname = []; punycode_hostname = []; path = none }
    ∷ []

validates : validate_rules to_ascii compile 0 2 configured ≡ some built
unfolding validate_rules one_more validate_hostname split_host_port build_rule punycode_of bytes_eq
    last_index index_byte
validates = refl

-- The port of the request's host is dropped.
found :
    (find_matching_rule [] built (str "c.a.b:80") (str "/x/y"))
    ≡ some (
      record {
        hostname = str "*.a.b";
        punycode_hostname = [];
        path = some (λ path. has_prefix path (str "/x"));
      },
      pos 0,
    )
unfolding find_matching_rule rule_of first_match matches match_host host_of split_host_port
    split_plain bytes_eq last_index index_byte has_prefix has_suffix trim_prefix
found = refl

find_matching_rule_validated_example :
    ((r : Rule) × (i : ℕ) × (find_matching_rule [] built (str "c.a.b:80") (str "/z")
        ≡ some (r, negsuc i))
      × IsFirst [] (host_of (str "c.a.b:80")) (str "/z") i r)
    ⊎ ((r : Rule) × (i : ℕ) × (find_matching_rule [] built (str "c.a.b:80") (str "/z")
          ≡ some (r, pos i))
        × (first_match (host_of (str "c.a.b:80")) (str "/z") [] 0 ≡ none)
        × IsFirst built (host_of (str "c.a.b:80")) (str "/z") i r)
find_matching_rule_validated_example =
    find_matching_rule_validated to_ascii compile configured built [] (str "c.a.b:80") (str "/z")
      (omega arith) validates
