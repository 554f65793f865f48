-- ===== src/Ingress/Origin/Flags.antt =====
-- ingress/config.go: the options of an origin from the command line, and those of WARP routing.

-- What the code asks of a cli.Context
use cloudflared.Common.{
  if◌then◌else◌, ℕ, ◌-◌, ◌%◌, ◌≡◌, refl, Bool, true, false, Option, none, some, [],
}
use cloudflared.Common.Bytes.{Bytes, str}
use cloudflared.Common.Int.{ℤ, pos, negsuc}
use cloudflared.Access.Net.{IpNet}
use cloudflared.Ingress.Origin.Config.{
  RawOriginConfig, OriginRequestConfig, default_http_connect_timeout,
  default_warp_routing_connect_timeout, default_tls_timeout, default_tcp_keep_alive,
  default_keep_alive_timeout, default_proxy_address, default_keep_alive_connections, no_access,
  given, valid_rules, origin_request_from_config,
}
use cloudflared.Ingress.Origin.RoundTrip.{given_unless}
use cloudflared.Ingress.Origin.Raw.{unless_default}

pub record Flags : Type 0 where
  pub is_set : Bytes → Bool
  pub duration : Bytes → ℤ
  pub bool : Bytes → Bool
  pub int : Bytes → ℤ
  pub string : Bytes → Bytes

-- uint(n), of 64 bits
abbrev pub to_uint : ℤ → ℕ
to_uint (pos n) = n % 18446744073709551616
to_uint (negsuc n) = (18446744073709551616 - (n % 18446744073709551616)) - 1

unfoldable pub origin_request_from_single_rule : Flags → OriginRequestConfig
origin_request_from_single_rule c = record {
  connect_timeout =
      if c.is_set (str "proxy-connect-timeout")
      then c.duration (str "proxy-connect-timeout")
      else default_http_connect_timeout;
  tls_timeout =
      if c.is_set (str "proxy-tls-timeout")
      then c.duration (str "proxy-tls-timeout")
      else default_tls_timeout;
  tcp_keep_alive =
      if c.is_set (str "proxy-tcp-keepalive")
      then c.duration (str "proxy-tcp-keepalive")
      else default_tcp_keep_alive;
  no_happy_eyeballs =
      if c.is_set (str "proxy-no-happy-eyeballs")
      then c.bool (str "proxy-no-happy-eyeballs")
      else false;
  keep_alive_connections =
      if c.is_set (str "proxy-keepalive-connections")
      then c.int (str "proxy-keepalive-connections")
      else default_keep_alive_connections;
  keep_alive_timeout =
      if c.is_set (str "proxy-keepalive-timeout")
      then c.duration (str "proxy-keepalive-timeout")
      else default_keep_alive_timeout;
  http_host_header =
      if c.is_set (str "http-host-header") then c.string (str "http-host-header") else [];
  origin_server_name =
      if c.is_set (str "origin-server-name") then c.string (str "origin-server-name") else [];
  ca_pool = if c.is_set (str "origin-ca-pool") then c.string (str "origin-ca-pool") else [];
  no_tls_verify = if c.is_set (str "no-tls-verify") then c.bool (str "no-tls-verify") else false;
  disable_chunked_encoding =
      if c.is_set (str "no-chunked-encoding") then c.bool (str "no-chunked-encoding") else false;
  bastion_mode = if c.is_set (str "bastion") then c.bool (str "bastion") else false;
  proxy_address =
      if c.is_set (str "proxy-address")
      then c.string (str "proxy-address")
      else default_proxy_address;
  proxy_port = if c.is_set (str "proxy-port") then to_uint (c.int (str "proxy-port")) else 0;
  proxy_type = if c.is_set (str "socks5") then str "socks" else [];
  ip_rules = [];
  http2_origin = if c.is_set (str "http2-origin") then c.bool (str "http2-origin") else false;
  access = no_access;
}

-- The option that a flag is, if it is set
abbrev pub when {ℓ} : {A : Type ℓ} → Bool → A → Option A
when true a = some a
when false a = none

-- The flags as the same options of a configuration
abbrev pub as_raw : Flags → RawOriginConfig
as_raw c = record {
  raw_connect_timeout =
      when (c.is_set (str "proxy-connect-timeout")) (c.duration (str "proxy-connect-timeout"));
  raw_tls_timeout =
      when (c.is_set (str "proxy-tls-timeout")) (c.duration (str "proxy-tls-timeout"));
  raw_tcp_keep_alive =
      when (c.is_set (str "proxy-tcp-keepalive")) (c.duration (str "proxy-tcp-keepalive"));
  raw_no_happy_eyeballs =
      when (c.is_set (str "proxy-no-happy-eyeballs")) (c.bool (str "proxy-no-happy-eyeballs"));
  raw_keep_alive_connections =
      when (c.is_set (str "proxy-keepalive-connections"))
        (c.int (str "proxy-keepalive-connections"));
  raw_keep_alive_timeout =
      when (c.is_set (str "proxy-keepalive-timeout")) (c.duration (str "proxy-keepalive-timeout"));
  raw_http_host_header =
      when (c.is_set (str "http-host-header")) (c.string (str "http-host-header"));
  raw_origin_server_name =
      when (c.is_set (str "origin-server-name")) (c.string (str "origin-server-name"));
  raw_ca_pool = when (c.is_set (str "origin-ca-pool")) (c.string (str "origin-ca-pool"));
  raw_no_tls_verify = when (c.is_set (str "no-tls-verify")) (c.bool (str "no-tls-verify"));
  raw_disable_chunked_encoding =
      when (c.is_set (str "no-chunked-encoding")) (c.bool (str "no-chunked-encoding"));
  raw_bastion_mode = when (c.is_set (str "bastion")) (c.bool (str "bastion"));
  raw_proxy_address = when (c.is_set (str "proxy-address")) (c.string (str "proxy-address"));
  raw_proxy_port = when (c.is_set (str "proxy-port")) (to_uint (c.int (str "proxy-port")));
  raw_proxy_type = when (c.is_set (str "socks5")) (str "socks");
  raw_ip_rules = [];
  raw_http2_origin = when (c.is_set (str "http2-origin")) (c.bool (str "http2-origin"));
  raw_access = none;
}

given-when : {A : Type 0} (b : Bool) (a d : A) → given (when b a) d ≡ (if b then a else d)
given-when true a d = refl
given-when false a d = refl

-- A single rule from the command line has the options that a configuration with the same options
-- set has: every flag that is set is the option's value, and every other keeps its default.
pub origin_request_from_config-as_raw :
    (parse_cidr : Bytes → Option IpNet) (c : Flags)
    → origin_request_from_config parse_cidr (as_raw c) ≡ origin_request_from_single_rule c
unfolding origin_request_from_config origin_request_from_single_rule valid_rules
origin_request_from_config-as_raw parse_cidr c = λ i. record {
  connect_timeout =
      given-when (c.is_set (str "proxy-connect-timeout")) (c.duration (str "proxy-connect-timeout"))
        default_http_connect_timeout i;
  tls_timeout =
      given-when (c.is_set (str "proxy-tls-timeout")) (c.duration (str "proxy-tls-timeout"))
        default_tls_timeout i;
  tcp_keep_alive =
      given-when (c.is_set (str "proxy-tcp-keepalive")) (c.duration (str "proxy-tcp-keepalive"))
        default_tcp_keep_alive i;
  no_happy_eyeballs =
      given-when (c.is_set (str "proxy-no-happy-eyeballs")) (c.bool (str "proxy-no-happy-eyeballs"))
        false i;
  keep_alive_connections =
      given-when (c.is_set (str "proxy-keepalive-connections"))
        (c.int (str "proxy-keepalive-connections")) default_keep_alive_connections i;
  keep_alive_timeout =
      given-when (c.is_set (str "proxy-keepalive-timeout"))
        (c.duration (str "proxy-keepalive-timeout")) default_keep_alive_timeout i;
  http_host_header =
      given-when (c.is_set (str "http-host-header")) (c.string (str "http-host-header")) [] i;
  origin_server_name =
      given-when (c.is_set (str "origin-server-name")) (c.string (str "origin-server-name")) [] i;
  ca_pool = given-when (c.is_set (str "origin-ca-pool")) (c.string (str "origin-ca-pool")) [] i;
  no_tls_verify =
      given-when (c.is_set (str "no-tls-verify")) (c.bool (str "no-tls-verify")) false i;
  disable_chunked_encoding =
      given-when (c.is_set (str "no-chunked-encoding")) (c.bool (str "no-chunked-encoding")) false
        i;
  bastion_mode = given-when (c.is_set (str "bastion")) (c.bool (str "bastion")) false i;
  proxy_address =
      given-when (c.is_set (str "proxy-address")) (c.string (str "proxy-address"))
        default_proxy_address i;
  proxy_port = given-when (c.is_set (str "proxy-port")) (to_uint (c.int (str "proxy-port"))) 0 i;
  proxy_type = given-when (c.is_set (str "socks5")) (str "socks") [] i;
  ip_rules = [];
  http2_origin = given-when (c.is_set (str "http2-origin")) (c.bool (str "http2-origin")) false i;
  access = no_access;
}

pub record WarpRoutingConfig : Type 0 where
  pub enabled : Bool
  pub warp_connect_timeout : ℤ
  pub warp_tcp_keep_alive : ℤ

-- config.WarpRoutingConfig
pub record RawWarpRouting : Type 0 where
  pub raw_enabled : Bool
  pub raw_warp_connect_timeout : Option ℤ
  pub raw_warp_tcp_keep_alive : Option ℤ

unfoldable pub new_warp_routing_config : RawWarpRouting → WarpRoutingConfig
new_warp_routing_config raw = record {
  enabled = raw.raw_enabled;
  warp_connect_timeout = given raw.raw_warp_connect_timeout default_warp_routing_connect_timeout;
  warp_tcp_keep_alive = given raw.raw_warp_tcp_keep_alive default_tcp_keep_alive;
}

unfoldable pub raw_config : WarpRoutingConfig → RawWarpRouting
raw_config c = record {
  raw_enabled = c.enabled;
  raw_warp_connect_timeout =
      unless_default default_warp_routing_connect_timeout c.warp_connect_timeout;
  raw_warp_tcp_keep_alive = unless_default default_tcp_keep_alive c.warp_tcp_keep_alive;
}

-- WARP routing settings are read back from what RawConfig writes.
pub new_warp_routing_config-raw_config :
    (c : WarpRoutingConfig) → new_warp_routing_config (raw_config c) ≡ c
unfolding new_warp_routing_config raw_config
new_warp_routing_config-raw_config c = λ i. record {
  enabled = c.enabled;
  warp_connect_timeout = given_unless default_warp_routing_connect_timeout c.warp_connect_timeout i;
  warp_tcp_keep_alive = given_unless default_tcp_keep_alive c.warp_tcp_keep_alive i;
}
