-- ===== src/Ingress/Origin/Tests.antt =====
-- The options of an origin on a configuration with a timeout, a proxy and an IP rule.

use cloudflared.Common.{
  if◌then◌else◌, ◌≡◌, refl, inr, true, false, Option, none, some, [], ◌∷◌, map, arith,
}
use cloudflared.Common.Bytes.{Bytes, str, bytes_eq}
use cloudflared.Common.Int.{pos}
use cloudflared.Access.Net.{IpNet}
use cloudflared.Access.Ports.{insert_sorted, sort_ints}
use cloudflared.Access.Policy.{
  Rule, first_invalid, port_error, validate, new_rule, new_rule_by_cidr,
}
use cloudflared.Ingress.Origin.Config.{
  IngressIpRule, RawOriginConfig, OriginRequestConfig, seconds, default_tls_timeout,
  default_tcp_keep_alive, default_keep_alive_timeout, default_proxy_address, no_access, parsed_rule,
  origin_request_from_config, set_config,
}
use cloudflared.Ingress.Origin.Raw.{convert_to_raw_origin_config}
use cloudflared.Ingress.Origin.Agreement.{
  nothing_set, IsLaidOver, set_config-origin_request_from_config,
}
use cloudflared.Ingress.Origin.RoundTrip.{origin_request_from_config-convert_to_raw_origin_config}

abbrev ten_net : IpNet
ten_net = record { ip = 10 ∷ 0 ∷ 0 ∷ 0 ∷ []; mask = 255 ∷ 0 ∷ 0 ∷ 0 ∷ [] }

-- One prefix is known.
abbrev parse_ten : Bytes → Option IpNet
parse_ten text = if bytes_eq text (str "10.0.0.0/8") then some ten_net else none

abbrev print_ten : Option IpNet → Bytes
print_ten net = str "10.0.0.0/8"

abbrev socks_origin : RawOriginConfig
socks_origin = record nothing_set {
  raw_connect_timeout = some (seconds 7);
  raw_proxy_type = some (str "socks");
  raw_ip_rules =
      record { prefix = some (str "10.0.0.0/8"); ports = pos 443 ∷ pos 80 ∷ []; allow = true } ∷ [];
}

set_config-origin_request_from_config_example :
    let r = origin_request_from_config parse_ten socks_origin in
    (set_config parse_ten (origin_request_from_config parse_ten nothing_set) socks_origin ≡ r)
    × IsLaidOver socks_origin r
    × (r.ip_rules
        ≡ map (λ (x : IngressIpRule). (parsed_rule parse_ten x).0) socks_origin.raw_ip_rules)
set_config-origin_request_from_config_example =
    set_config-origin_request_from_config parse_ten socks_origin (
      unfold parsed_rule new_rule_by_cidr new_rule validate port_error first_invalid sort_ints
        insert_sorted bytes_eq in
      refl)

abbrev ten_rule : Rule
ten_rule = record { ip_net = some ten_net; ports = pos 80 ∷ pos 443 ∷ []; allow = true }

abbrev configured : OriginRequestConfig
configured = record {
  connect_timeout = seconds 7;
  tls_timeout = default_tls_timeout;
  tcp_keep_alive = default_tcp_keep_alive;
  no_happy_eyeballs = true;
  keep_alive_connections = pos 20;
  keep_alive_timeout = default_keep_alive_timeout;
  http_host_header = str "a.b";
  origin_server_name = [];
  ca_pool = [];
  no_tls_verify = false;
  disable_chunked_encoding = false;
  bastion_mode = false;
  proxy_address = default_proxy_address;
  proxy_port = 0;
  proxy_type = str "socks";
  ip_rules = ten_rule ∷ [];
  http2_origin = false;
  access = no_access;
}

ten_parses : parse_ten (str "10.0.0.0/8") ≡ some ten_net
unfolding bytes_eq
ten_parses = refl

ten_sorted : sort_ints ten_rule.ports ≡ ten_rule.ports
unfolding sort_ints insert_sorted
ten_sorted = refl

origin_request_from_config-convert_to_raw_origin_config_example :
    origin_request_from_config parse_ten (convert_to_raw_origin_config print_ten configured)
    ≡ configured
origin_request_from_config-convert_to_raw_origin_config_example =
    origin_request_from_config-convert_to_raw_origin_config parse_ten print_ten configured
      (inr refl) ((ten_net, refl, omega arith, ten_parses, ten_sorted, refl), tt)
