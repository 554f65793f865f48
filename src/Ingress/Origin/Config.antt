-- ===== src/Ingress/Origin/Config.antt =====
-- ingress/config.go, config/configuration.go: how cloudflared sends requests to an origin, from the
-- defaults, the configuration and the flags. A duration and an int are integers; an unset option
-- is none. net.ParseCIDR and IPNet.String are arguments.
use cloudflared.Common.{ℕ, ◌*◌, Bool, false, Option, none, some, List, [], ◌∷◌}
use cloudflared.Common.Bytes.{Bytes, str}
use cloudflared.Common.Int.{ℤ, pos}
use cloudflared.Access.Net.{IpNet}
use cloudflared.Access.Policy.{Error, Rule, zero_rule, new_rule_by_cidr}

pub record AccessConfig : Type 0 where
  pub required : Bool
  pub team_name : Bytes
  pub aud_tag : List Bytes

pub record IngressIpRule : Type 0 where
  pub prefix : Option Bytes
  pub ports : List ℤ
  pub allow : Bool

-- config.OriginRequestConfig
pub record RawOriginConfig : Type 0 where
  pub raw_connect_timeout : Option ℤ
  pub raw_tls_timeout : Option ℤ
  pub raw_tcp_keep_alive : Option ℤ
  pub raw_no_happy_eyeballs : Option Bool
  pub raw_keep_alive_connections : Option ℤ
  pub raw_keep_alive_timeout : Option ℤ
  pub raw_http_host_header : Option Bytes
  pub raw_origin_server_name : Option Bytes
  pub raw_ca_pool : Option Bytes
  pub raw_no_tls_verify : Option Bool
  pub raw_disable_chunked_encoding : Option Bool
  pub raw_bastion_mode : Option Bool
  pub raw_proxy_address : Option Bytes
  pub raw_proxy_port : Option ℕ
  pub raw_proxy_type : Option Bytes
  pub raw_ip_rules : List IngressIpRule
  pub raw_http2_origin : Option Bool
  pub raw_access : Option AccessConfig

pub record OriginRequestConfig : Type 0 where
  pub connect_timeout : ℤ
  pub tls_timeout : ℤ
  pub tcp_keep_alive : ℤ
  pub no_happy_eyeballs : Bool
  pub keep_alive_connections : ℤ
  pub keep_alive_timeout : ℤ
  pub http_host_header : Bytes
  pub origin_server_name : Bytes
  pub ca_pool : Bytes
  pub no_tls_verify : Bool
  pub disable_chunked_encoding : Bool
  pub bastion_mode : Bool
  pub proxy_address : Bytes
  pub proxy_port : ℕ
  pub proxy_type : Bytes
  pub ip_rules : List Rule
  pub http2_origin : Bool
  pub access : AccessConfig

abbrev pub seconds : ℕ → ℤ
seconds n = pos (n * 1000000000)

abbrev pub default_http_connect_timeout : ℤ
default_http_connect_timeout = seconds 30

abbrev pub default_warp_routing_connect_timeout : ℤ
default_warp_routing_connect_timeout = seconds 5

abbrev pub default_tls_timeout : ℤ
default_tls_timeout = seconds 10

abbrev pub default_tcp_keep_alive : ℤ
default_tcp_keep_alive = seconds 30

abbrev pub default_keep_alive_timeout : ℤ
default_keep_alive_timeout = seconds 90

abbrev pub default_proxy_address : Bytes
default_proxy_address = str "127.0.0.1"

abbrev pub default_keep_alive_connections : ℤ
default_keep_alive_connections = pos 100

-- AccessConfig{}
abbrev pub no_access : AccessConfig
no_access = record { required = false; team_name = []; aud_tag = [] }

-- What an option says, or what holds without it
abbrev pub given {ℓ} : {A : Type ℓ} → Option A → A → A
given none d = d
given (some a) d = a

unfoldable pub set_connect_timeout : RawOriginConfig → OriginRequestConfig → OriginRequestConfig
set_connect_timeout o d = record d {
  connect_timeout = given o.raw_connect_timeout d.connect_timeout;
}

unfoldable pub set_tls_timeout : RawOriginConfig → OriginRequestConfig → OriginRequestConfig
set_tls_timeout o d = record d { tls_timeout = given o.raw_tls_timeout d.tls_timeout }

unfoldable pub set_tcp_keep_alive : RawOriginConfig → OriginRequestConfig → OriginRequestConfig
set_tcp_keep_alive o d = record d { tcp_keep_alive = given o.raw_tcp_keep_alive d.tcp_keep_alive }

unfoldable pub set_no_happy_eyeballs : RawOriginConfig → OriginRequestConfig → OriginRequestConfig
set_no_happy_eyeballs o d = record d {
  no_happy_eyeballs = given o.raw_no_happy_eyeballs d.no_happy_eyeballs;
}

unfoldable pub set_keep_alive_connections :
    RawOriginConfig → OriginRequestConfig → OriginRequestConfig
set_keep_alive_connections o d = record d {
  keep_alive_connections = given o.raw_keep_alive_connections d.keep_alive_connections;
}

unfoldable pub set_keep_alive_timeout : RawOriginConfig → OriginRequestConfig → OriginRequestConfig
set_keep_alive_timeout o d = record d {
  keep_alive_timeout = given o.raw_keep_alive_timeout d.keep_alive_timeout;
}

unfoldable pub set_http_host_header : RawOriginConfig → OriginRequestConfig → OriginRequestConfig
set_http_host_header o d = record d {
  http_host_header = given o.raw_http_host_header d.http_host_header;
}

unfoldable pub set_origin_server_name : RawOriginConfig → OriginRequestConfig → OriginRequestConfig
set_origin_server_name o d = record d {
  origin_server_name = given o.raw_origin_server_name d.origin_server_name;
}

unfoldable pub set_ca_pool : RawOriginConfig → OriginRequestConfig → OriginRequestConfig
set_ca_pool o d = record d { ca_pool = given o.raw_ca_pool d.ca_pool }

unfoldable pub set_no_tls_verify : RawOriginConfig → OriginRequestConfig → OriginRequestConfig
set_no_tls_verify o d = record d { no_tls_verify = given o.raw_no_tls_verify d.no_tls_verify }

unfoldable pub set_disable_chunked_encoding :
    RawOriginConfig → OriginRequestConfig → OriginRequestConfig
set_disable_chunked_encoding o d = record d {
  disable_chunked_encoding = given o.raw_disable_chunked_encoding d.disable_chunked_encoding;
}

unfoldable pub set_bastion_mode : RawOriginConfig → OriginRequestConfig → OriginRequestConfig
set_bastion_mode o d = record d { bastion_mode = given o.raw_bastion_mode d.bastion_mode }

unfoldable pub set_proxy_address : RawOriginConfig → OriginRequestConfig → OriginRequestConfig
set_proxy_address o d = record d { proxy_address = given o.raw_proxy_address d.proxy_address }

unfoldable pub set_proxy_port : RawOriginConfig → OriginRequestConfig → OriginRequestConfig
set_proxy_port o d = record d { proxy_port = given o.raw_proxy_port d.proxy_port }

unfoldable pub set_proxy_type : RawOriginConfig → OriginRequestConfig → OriginRequestConfig
set_proxy_type o d = record d { proxy_type = given o.raw_proxy_type d.proxy_type }

unfoldable pub set_http2_origin : RawOriginConfig → OriginRequestConfig → OriginRequestConfig
set_http2_origin o d = record d { http2_origin = given o.raw_http2_origin d.http2_origin }

unfoldable pub set_access : RawOriginConfig → OriginRequestConfig → OriginRequestConfig
set_access o d = record d { access = given o.raw_access d.access }

module _ (parse_cidr : Bytes → Option IpNet) where
  unfoldable pub parsed_rule : IngressIpRule → Rule × Option Error
  parsed_rule r = new_rule_by_cidr parse_cidr r.prefix r.ports r.allow

  -- The rules of originRequestFromConfig: those with an error are left out.
  unfoldable pub and_valid : Rule × Option Error → List Rule → List Rule
  and_valid (rule, none) rules = rule ∷ rules
  and_valid (rule, some e) rules = rules

  unfoldable pub valid_rules : List IngressIpRule → List Rule
  valid_rules [] = []
  valid_rules (r ∷ rs) = and_valid (parsed_rule r) (valid_rules rs)

  -- The rules of setIPRules: one with an error leaves the zero rule in its place.
  unfoldable pub or_zero : Rule × Option Error → Rule
  or_zero (rule, none) = rule
  or_zero (rule, some e) = zero_rule

  unfoldable pub placed_rules : List IngressIpRule → List Rule
  placed_rules [] = []
  placed_rules (r ∷ rs) = or_zero (parsed_rule r) ∷ placed_rules rs

  unfoldable pub origin_request_from_config : RawOriginConfig → OriginRequestConfig
  origin_request_from_config c = record {
    connect_timeout = given c.raw_connect_timeout default_http_connect_timeout;
    tls_timeout = given c.raw_tls_timeout default_tls_timeout;
    tcp_keep_alive = given c.raw_tcp_keep_alive default_tcp_keep_alive;
    no_happy_eyeballs = given c.raw_no_happy_eyeballs false;
    keep_alive_connections = given c.raw_keep_alive_connections default_keep_alive_connections;
    keep_alive_timeout = given c.raw_keep_alive_timeout default_keep_alive_timeout;
    http_host_header = given c.raw_http_host_header [];
    origin_server_name = given c.raw_origin_server_name [];
    ca_pool = given c.raw_ca_pool [];
    no_tls_verify = given c.raw_no_tls_verify false;
    disable_chunked_encoding = given c.raw_disable_chunked_encoding false;
    bastion_mode = given c.raw_bastion_mode false;
    proxy_address = given c.raw_proxy_address default_proxy_address;
    proxy_port = given c.raw_proxy_port 0;
    proxy_type = given c.raw_proxy_type [];
    ip_rules = valid_rules c.raw_ip_rules;
    http2_origin = given c.raw_http2_origin false;
    access = given c.raw_access no_access;
  }

  unfoldable pub rules_or : List IngressIpRule → List Rule → List Rule
  rules_or [] rules = rules
  rules_or (r ∷ rs) rules = placed_rules (r ∷ rs)

  unfoldable pub set_ip_rules : RawOriginConfig → OriginRequestConfig → OriginRequestConfig
  set_ip_rules o d = record d { ip_rules = rules_or o.raw_ip_rules d.ip_rules }

  -- setConfig: the setters one after another
  unfoldable pub set_config : OriginRequestConfig → RawOriginConfig → OriginRequestConfig
  set_config d o =
      let d1 = set_connect_timeout o d in
      let d2 = set_tls_timeout o d1 in
      let d3 = set_no_happy_eyeballs o d2 in
      let d4 = set_keep_alive_connections o d3 in
      let d5 = set_keep_alive_timeout o d4 in
      let d6 = set_tcp_keep_alive o d5 in
      let d7 = set_http_host_header o d6 in
      let d8 = set_origin_server_name o d7 in
      let d9 = set_ca_pool o d8 in
      let d10 = set_no_tls_verify o d9 in
      let d11 = set_disable_chunked_encoding o d10 in
      let d12 = set_bastion_mode o d11 in
      let d13 = set_proxy_port o d12 in
      let d14 = set_proxy_address o d13 in
      let d15 = set_proxy_type o d14 in
      let d16 = set_ip_rules o d15 in
      let d17 = set_http2_origin o d16 in let d18 = set_access o d17 in d18
