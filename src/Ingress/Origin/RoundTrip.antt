-- ===== src/Ingress/Origin/RoundTrip.antt =====
-- ingress/config.go: what ConvertToRawOriginConfig and RawConfig write is read as it was.

use cloudflared.Common.{
  Bool-cases, length, All, ℕ, zero, suc, ◌<◌, ◌≡◌, refl, sym, ap, ◌∙◌, subst, ◌⊎◌, inl, inr, Bool,
  true, false, Option, none, some, List, [], ◌∷◌, arith,
}
use cloudflared.Common.Bytes.{Bytes, bytes_eq, bytes_eq_iff}
use cloudflared.Common.Int.{ℤ, eq_of_parts}
use cloudflared.Access.Net.{IpNet}
use cloudflared.Access.Ports.{eq_ℤ, sort_ints}
use cloudflared.Access.Policy.{Rule, validate, new_rule, new_rule_by_cidr}
use cloudflared.Access.Decision.{valid_ports, validate-valid}
use cloudflared.Ingress.Origin.Config.{
  AccessConfig, OriginRequestConfig, default_http_connect_timeout, default_tls_timeout,
  default_tcp_keep_alive, default_keep_alive_timeout, default_proxy_address,
  default_keep_alive_connections, no_access, given, parsed_rule, and_valid, valid_rules,
  origin_request_from_config,
}
use cloudflared.Ingress.Origin.Raw.{
  default_bool_to_nil, empty_string_to_nil, zero_uint_to_nil, unless_default, unless_address,
  access_to_nil, convert_to_raw_ip_rules, convert_to_raw_origin_config,
}

given_bool : (b : Bool) → given (default_bool_to_nil b) false ≡ b
unfolding default_bool_to_nil
given_bool false = refl
given_bool true = refl

given_string : (s : Bytes) → given (empty_string_to_nil s) [] ≡ s
unfolding empty_string_to_nil
given_string [] = refl
given_string (c ∷ s) = refl

given_uint : (n : ℕ) → given (zero_uint_to_nil n) 0 ≡ n
unfolding zero_uint_to_nil
given_uint zero = refl
given_uint (suc n) = refl

pub eq_ℤ_sound : (a b : ℤ) → eq_ℤ a b ≡ true → a ≡ b
eq_ℤ_sound a b h = eq_of_parts a b (ground arith)

pub given_unless : (d v : ℤ) → given (unless_default d v) d ≡ v
unfolding unless_default
given_unless d v = elim (Bool-cases (eq_ℤ v d)) [
  | inl same ↦ rw same (sym (eq_ℤ_sound v d same))
  | inr other ↦ rw other refl
]

given_address : (d v : Bytes) → given (unless_address d v) d ≡ v
unfolding unless_address
given_address d v = elim (Bool-cases (bytes_eq v d)) [
  | inl same ↦ rw same (sym ((bytes_eq_iff v d).0 same))
  | inr other ↦ rw other refl
]

-- Access settings that are required, or not set at all
abbrev pub IsKept : AccessConfig → Type 0
IsKept a = (a.required ≡ true) ⊎ (a ≡ no_access)

given_access : (a : AccessConfig) → IsKept a → given (access_to_nil a) no_access ≡ a
unfolding access_to_nil
given_access a (inl on) = rw on refl
given_access a (inr zero_access) =
    subst (λ b. given (access_to_nil b) no_access ≡ b) (sym zero_access)
      (unfold access_to_nil in refl)

by_cidr :
    (parse_cidr : Bytes → Option IpNet) (net : IpNet) (text : Bytes) (ports : List ℤ) (allow : Bool)
    → 0 < length text
    → parse_cidr text ≡ some net
    → new_rule_by_cidr parse_cidr (some text) ports allow ≡ new_rule (some net) ports allow
unfolding new_rule_by_cidr
by_cidr parse_cidr net [] ports allow h e = absurd (omega arith)
by_cidr parse_cidr net (c ∷ text) ports allow h e = ground (arith, e)

module _ (parse_cidr : Bytes → Option IpNet) (string_cidr : Option IpNet → Bytes) where
  -- The network of the rule is printed as a prefix that parses to it, and its ports are valid and
  -- in order, as Validate leaves them.
  abbrev pub Returns : Rule → Type 0
  Returns r =
      (net : IpNet) × (r.ip_net ≡ some net)
      × (0 < length (string_cidr r.ip_net))
      × (parse_cidr (string_cidr r.ip_net) ≡ some net)
      × (sort_ints r.ports ≡ r.ports)
      × (valid_ports r.ports ≡ true)

  rule-Returns :
      (r : Rule)
      → Returns r
      → parsed_rule parse_cidr
          (record { prefix = some (string_cidr r.ip_net); ports = r.ports; allow = r.allow })
        ≡ (r, none)
  unfolding parsed_rule
  rule-Returns r (net, has, some_text, back, ordered, valid) =
      by_cidr parse_cidr net (string_cidr r.ip_net) r.ports r.allow some_text back
      ∙ (unfold new_rule in
          (ap (λ n. validate (record { ip_net = n; ports = r.ports; allow = r.allow })) (sym has)
            ∙ (validate-valid r (ground (arith, has, valid)) ∙ λ i.
                (record r { ports = ordered i }, none))))

  rules_return :
      (rs : List Rule)
      → All Returns rs
      → valid_rules parse_cidr (convert_to_raw_ip_rules string_cidr rs) ≡ rs
  unfolding valid_rules convert_to_raw_ip_rules and_valid
  rules_return [] h = refl
  rules_return (r ∷ rs) h = rw (rule-Returns r h.0) (ap (◌∷◌ r) (rules_return rs h.1))

  -- A configuration whose access settings are required or absent, and whose IP rules have networks
  -- that print as prefixes that parse to them and valid ports in order, is read back in all its
  -- fields from what ConvertToRawOriginConfig writes.
  pub origin_request_from_config-convert_to_raw_origin_config :
      (c : OriginRequestConfig)
      → IsKept c.access
      → All Returns c.ip_rules
      → origin_request_from_config parse_cidr (convert_to_raw_origin_config string_cidr c) ≡ c
  unfolding origin_request_from_config convert_to_raw_origin_config
  origin_request_from_config-convert_to_raw_origin_config c kept rules = λ i. record {
    connect_timeout = given_unless default_http_connect_timeout c.connect_timeout i;
    tls_timeout = given_unless default_tls_timeout c.tls_timeout i;
    tcp_keep_alive = given_unless default_tcp_keep_alive c.tcp_keep_alive i;
    no_happy_eyeballs = given_bool c.no_happy_eyeballs i;
    keep_alive_connections = given_unless default_keep_alive_connections c.keep_alive_connections i;
    keep_alive_timeout = given_unless default_keep_alive_timeout c.keep_alive_timeout i;
    http_host_header = given_string c.http_host_header i;
    origin_server_name = given_string c.origin_server_name i;
    ca_pool = given_string c.ca_pool i;
    no_tls_verify = given_bool c.no_tls_verify i;
    disable_chunked_encoding = given_bool c.disable_chunked_encoding i;
    bastion_mode = given_bool c.bastion_mode i;
    proxy_address = given_address default_proxy_address c.proxy_address i;
    proxy_port = given_uint c.proxy_port i;
    proxy_type = given_string c.proxy_type i;
    ip_rules = rules_return c.ip_rules rules i;
    http2_origin = given_bool c.http2_origin i;
    access = given_access c.access kept i;
  }
