-- ===== src/Ingress/Origin/Raw.antt =====
-- ingress/config.go: the configuration of an origin, written back as options that are set only where
-- they differ from the defaults.

use cloudflared.Common.{
  if◌then◌else◌, ℕ, zero, suc, Bool, true, false, Option, none, some, List, [], ◌∷◌,
}
use cloudflared.Common.Bytes.{Bytes, bytes_eq}
use cloudflared.Common.Int.{ℤ}
use cloudflared.Access.Net.{IpNet}
use cloudflared.Access.Ports.{eq_ℤ}
use cloudflared.Access.Policy.{Rule}
use cloudflared.Ingress.Origin.Config.{
  AccessConfig, IngressIpRule, RawOriginConfig, OriginRequestConfig, default_http_connect_timeout,
  default_tls_timeout, default_tcp_keep_alive, default_keep_alive_timeout, default_proxy_address,
  default_keep_alive_connections,
}

unfoldable pub default_bool_to_nil : Bool → Option Bool
default_bool_to_nil false = none
default_bool_to_nil true = some true

unfoldable pub empty_string_to_nil : Bytes → Option Bytes
empty_string_to_nil [] = none
empty_string_to_nil (c ∷ s) = some (c ∷ s)

unfoldable pub zero_uint_to_nil : ℕ → Option ℕ
zero_uint_to_nil zero = none
zero_uint_to_nil (suc n) = some (suc n)

-- `if v != d`
unfoldable pub unless_default : ℤ → ℤ → Option ℤ
unless_default d v = if eq_ℤ v d then none else some v

unfoldable pub unless_address : Bytes → Bytes → Option Bytes
unless_address d v = if bytes_eq v d then none else some v

unfoldable pub access_to_nil : AccessConfig → Option AccessConfig
access_to_nil a = if a.required then some a else none

module _ (string_cidr : Option IpNet → Bytes) where
  unfoldable pub convert_to_raw_ip_rules : List Rule → List IngressIpRule
  convert_to_raw_ip_rules [] = []
  convert_to_raw_ip_rules (r ∷ rs) =
      record { prefix = some (string_cidr r.ip_net); ports = r.ports; allow = r.allow }
      ∷ convert_to_raw_ip_rules rs

  unfoldable pub convert_to_raw_origin_config : OriginRequestConfig → RawOriginConfig
  convert_to_raw_origin_config c = record {
    raw_connect_timeout = unless_default default_http_connect_timeout c.connect_timeout;
    raw_tls_timeout = unless_default default_tls_timeout c.tls_timeout;
    raw_tcp_keep_alive = unless_default default_tcp_keep_alive c.tcp_keep_alive;
    raw_no_happy_eyeballs = default_bool_to_nil c.no_happy_eyeballs;
    raw_keep_alive_connections =
        unless_default default_keep_alive_connections c.keep_alive_connections;
    raw_keep_alive_timeout = unless_default default_keep_alive_timeout c.keep_alive_timeout;
    raw_http_host_header = empty_string_to_nil c.http_host_header;
    raw_origin_server_name = empty_string_to_nil c.origin_server_name;
    raw_ca_pool = empty_string_to_nil c.ca_pool;
    raw_no_tls_verify = default_bool_to_nil c.no_tls_verify;
    raw_disable_chunked_encoding = default_bool_to_nil c.disable_chunked_encoding;
    raw_bastion_mode = default_bool_to_nil c.bastion_mode;
    raw_proxy_address = unless_address default_proxy_address c.proxy_address;
    raw_proxy_port = zero_uint_to_nil c.proxy_port;
    raw_proxy_type = empty_string_to_nil c.proxy_type;
    raw_ip_rules = convert_to_raw_ip_rules c.ip_rules;
    raw_http2_origin = default_bool_to_nil c.http2_origin;
    raw_access = access_to_nil c.access;
  }
