-- ===== src/Ingress/Origin/Agreement.antt =====
-- ingress/config.go: the two readers of an origin's configuration agree, and what is written back is
-- read as it was.

use cloudflared.Common.{
  is_some, ◌≡◌, refl, Bool, true, false, ◌&&◌, not, Option, none, some, List, [], ◌∷◌, map, arith,
}
use cloudflared.Common.Bytes.{Bytes}
use cloudflared.Access.Net.{IpNet}
use cloudflared.Ingress.Origin.Config.{
  IngressIpRule, RawOriginConfig, OriginRequestConfig, default_http_connect_timeout,
  default_tls_timeout, default_tcp_keep_alive, default_keep_alive_timeout, default_proxy_address,
  default_keep_alive_connections, no_access, given, set_connect_timeout, set_tls_timeout,
  set_tcp_keep_alive, set_no_happy_eyeballs, set_keep_alive_connections, set_keep_alive_timeout,
  set_http_host_header, set_origin_server_name, set_ca_pool, set_no_tls_verify,
  set_disable_chunked_encoding, set_bastion_mode, set_proxy_address, set_proxy_port, set_proxy_type,
  set_http2_origin, set_access, parsed_rule, and_valid, valid_rules, or_zero, placed_rules,
  origin_request_from_config, rules_or, set_ip_rules, set_config,
}

-- No option is set.
abbrev pub nothing_set : RawOriginConfig
nothing_set = record {
  raw_connect_timeout = none;
  raw_tls_timeout = none;
  raw_tcp_keep_alive = none;
  raw_no_happy_eyeballs = none;
  raw_keep_alive_connections = none;
  raw_keep_alive_timeout = none;
  raw_http_host_header = none;
  raw_origin_server_name = none;
  raw_ca_pool = none;
  raw_no_tls_verify = none;
  raw_disable_chunked_encoding = none;
  raw_bastion_mode = none;
  raw_proxy_address = none;
  raw_proxy_port = none;
  raw_proxy_type = none;
  raw_ip_rules = [];
  raw_http2_origin = none;
  raw_access = none;
}

-- A value is the option's, or the default if the option is not set.
abbrev pub Wins {ℓ} : {A : Type ℓ} → Option A → A → A → Type ℓ
Wins none d a = a ≡ d
Wins (some b) d a = a ≡ b

-- What each option makes of its field
abbrev pub IsLaidOver : RawOriginConfig → OriginRequestConfig → Type 0
IsLaidOver c r =
    Wins c.raw_connect_timeout default_http_connect_timeout r.connect_timeout
    × Wins c.raw_tls_timeout default_tls_timeout r.tls_timeout
    × Wins c.raw_tcp_keep_alive default_tcp_keep_alive r.tcp_keep_alive
    × Wins c.raw_no_happy_eyeballs false r.no_happy_eyeballs
    × Wins c.raw_keep_alive_connections default_keep_alive_connections r.keep_alive_connections
    × Wins c.raw_keep_alive_timeout default_keep_alive_timeout r.keep_alive_timeout
    × Wins c.raw_http_host_header [] r.http_host_header
    × Wins c.raw_origin_server_name [] r.origin_server_name
    × Wins c.raw_ca_pool [] r.ca_pool
    × Wins c.raw_no_tls_verify false r.no_tls_verify
    × Wins c.raw_disable_chunked_encoding false r.disable_chunked_encoding
    × Wins c.raw_bastion_mode false r.bastion_mode
    × Wins c.raw_proxy_address default_proxy_address r.proxy_address
    × Wins c.raw_proxy_port 0 r.proxy_port
    × Wins c.raw_proxy_type [] r.proxy_type
    × Wins c.raw_http2_origin false r.http2_origin
    × Wins c.raw_access no_access r.access

given-Wins {ℓ} : {A : Type ℓ} (o : Option A) (d : A) → Wins o d (given o d)
given-Wins none d = refl
given-Wins (some a) d = refl

module _ (parse_cidr : Bytes → Option IpNet) where
  -- Every rule has a prefix that parses and ports that are valid.
  abbrev pub all_parse : List IngressIpRule → Bool
  all_parse [] = true
  all_parse (r ∷ rs) = not (is_some (parsed_rule parse_cidr r).1) && all_parse rs

  rules_agree :
      (rs : List IngressIpRule)
      → all_parse rs ≡ true
      → placed_rules parse_cidr rs ≡ valid_rules parse_cidr rs
  unfolding placed_rules valid_rules or_zero and_valid
  rules_agree [] h = refl
  rules_agree (r ∷ rs) h = ground (arith, rules_agree rs)

  rules_or_agree :
      (rs : List IngressIpRule)
      → all_parse rs ≡ true
      → rules_or parse_cidr rs [] ≡ valid_rules parse_cidr rs
  unfolding rules_or
  rules_or_agree [] h = unfold valid_rules in refl
  rules_or_agree (r ∷ rs) h = rules_agree (r ∷ rs) h

  readers_agree :
      (c : RawOriginConfig)
      → all_parse c.raw_ip_rules ≡ true
      → set_config parse_cidr (origin_request_from_config parse_cidr nothing_set) c
        ≡ origin_request_from_config parse_cidr c
  unfolding set_config origin_request_from_config valid_rules set_connect_timeout set_tls_timeout
      set_no_happy_eyeballs set_keep_alive_connections set_keep_alive_timeout set_tcp_keep_alive
      set_http_host_header set_origin_server_name set_ca_pool set_no_tls_verify
      set_disable_chunked_encoding set_bastion_mode set_proxy_port set_proxy_address set_proxy_type
      set_ip_rules set_http2_origin set_access
  readers_agree c h = λ i. record {
    connect_timeout = (origin_request_from_config parse_cidr c).connect_timeout;
    tls_timeout = (origin_request_from_config parse_cidr c).tls_timeout;
    tcp_keep_alive = (origin_request_from_config parse_cidr c).tcp_keep_alive;
    no_happy_eyeballs = (origin_request_from_config parse_cidr c).no_happy_eyeballs;
    keep_alive_connections = (origin_request_from_config parse_cidr c).keep_alive_connections;
    keep_alive_timeout = (origin_request_from_config parse_cidr c).keep_alive_timeout;
    http_host_header = (origin_request_from_config parse_cidr c).http_host_header;
    origin_server_name = (origin_request_from_config parse_cidr c).origin_server_name;
    ca_pool = (origin_request_from_config parse_cidr c).ca_pool;
    no_tls_verify = (origin_request_from_config parse_cidr c).no_tls_verify;
    disable_chunked_encoding = (origin_request_from_config parse_cidr c).disable_chunked_encoding;
    bastion_mode = (origin_request_from_config parse_cidr c).bastion_mode;
    proxy_address = (origin_request_from_config parse_cidr c).proxy_address;
    proxy_port = (origin_request_from_config parse_cidr c).proxy_port;
    proxy_type = (origin_request_from_config parse_cidr c).proxy_type;
    ip_rules = rules_or_agree c.raw_ip_rules h i;
    http2_origin = (origin_request_from_config parse_cidr c).http2_origin;
    access = (origin_request_from_config parse_cidr c).access;
  }

  laid_over : (c : RawOriginConfig) → IsLaidOver c (origin_request_from_config parse_cidr c)
  unfolding origin_request_from_config
  laid_over c = (
    given-Wins c.raw_connect_timeout default_http_connect_timeout,
    given-Wins c.raw_tls_timeout default_tls_timeout,
    given-Wins c.raw_tcp_keep_alive default_tcp_keep_alive,
    given-Wins c.raw_no_happy_eyeballs false,
    given-Wins c.raw_keep_alive_connections default_keep_alive_connections,
    given-Wins c.raw_keep_alive_timeout default_keep_alive_timeout,
    given-Wins c.raw_http_host_header [],
    given-Wins c.raw_origin_server_name [],
    given-Wins c.raw_ca_pool [],
    given-Wins c.raw_no_tls_verify false,
    given-Wins c.raw_disable_chunked_encoding false,
    given-Wins c.raw_bastion_mode false,
    given-Wins c.raw_proxy_address default_proxy_address,
    given-Wins c.raw_proxy_port 0,
    given-Wins c.raw_proxy_type [],
    given-Wins c.raw_http2_origin false,
    given-Wins c.raw_access no_access,
  )

  -- Rules that parse are all kept.
  all_kept :
      (rs : List IngressIpRule)
      → all_parse rs ≡ true
      → valid_rules parse_cidr rs ≡ map (λ (r : IngressIpRule). (parsed_rule parse_cidr r).0) rs
  unfolding valid_rules and_valid
  all_kept [] h = refl
  all_kept (r ∷ rs) h = ground (arith, all_kept rs)

  -- As long as every IP rule of it parses, a configuration read for all the rules of an ingress is
  -- the same as one that is laid over the built-in defaults for a single rule; each option that is
  -- set wins and each that is not leaves the default, in all the fields but the IP rules; and these
  -- are the configured ones, one for one.
  pub set_config-origin_request_from_config :
      (c : RawOriginConfig)
      → all_parse c.raw_ip_rules ≡ true
      → let r = origin_request_from_config parse_cidr c in
        (set_config parse_cidr (origin_request_from_config parse_cidr nothing_set) c ≡ r)
        × IsLaidOver c r
        × (r.ip_rules ≡ map (λ (x : IngressIpRule). (parsed_rule parse_cidr x).0) c.raw_ip_rules)
  set_config-origin_request_from_config c h = (
    readers_agree c h,
    laid_over c,
    unfold origin_request_from_config in all_kept c.raw_ip_rules h,
  )
