-- ===== src/Edge/Region.antt =====
-- edgediscovery/allregions/region.go: one region, its primary and secondary addresses, and the switch
-- between them. `active` refers to one of the two maps. Times are nanoseconds, the zero time is 0.

pub mod Laws
use cloudflared.Common.{
  ltb, if◌then◌else◌, length, ℕ, ◌+◌, Bool, true, false, ◌&&◌, not, Option, none, some, List, [],
  ◌∷◌,
}
use cloudflared.Edge.AddrSet.{
  IpVersion, v4, v6, EdgeAddr, unused, AddrSet, Order, addr_used_by, available_addrs, get_unused_ip,
  assign, use_addr, give_back,
}

pub data Which : Type 0 where
  primary_set secondary_set : Which

pub data ConfigIpVersion : Type 0 where
  auto ipv4_only ipv6_only : ConfigIpVersion

pub record Region : Type 0 where
  pub primary_is_active : Bool
  pub active : Which
  pub primary : AddrSet
  pub secondary : AddrSet
  pub primary_timeout : ℕ
  pub timeout_duration : ℕ

-- 10 * time.Minute
abbrev pub timeout_duration_default : ℕ
timeout_duration_default = 600000000000

abbrev pub is_v4 : IpVersion → Bool
is_v4 v4 = true
is_v4 v6 = false

abbrev pub is_v6 : IpVersion → Bool
is_v6 v4 = false
is_v6 v6 = true

-- The loop of NewRegion over the addresses, for the map of one version.
unfoldable pub addrs_of : (IpVersion → Bool) → AddrSet → List EdgeAddr → AddrSet
addrs_of version s [] = s
addrs_of version s (a ∷ rest) =
    addrs_of version (if version a.ip_version then assign s a unused else s) rest

-- The version of the first address; V6 where there is none.
abbrev pub system_preference : List EdgeAddr → IpVersion
system_preference [] = v6
system_preference (a ∷ rest) = a.ip_version

abbrev pub region_of : AddrSet → AddrSet → Region
region_of primary secondary = record {
  primary_is_active = true;
  active = primary_set;
  primary = primary;
  secondary = secondary;
  primary_timeout = 0;
  timeout_duration = timeout_duration_default;
}

unfoldable pub new_region : List EdgeAddr → ConfigIpVersion → Region
unfolding addrs_of
new_region addrs ipv4_only = region_of (addrs_of is_v4 [] addrs) []
new_region addrs ipv6_only = region_of (addrs_of is_v6 [] addrs) []
new_region addrs auto =
    if is_v4 (system_preference addrs)
    then region_of (addrs_of is_v4 [] addrs) (addrs_of is_v6 [] addrs)
    else region_of (addrs_of is_v6 [] addrs) (addrs_of is_v4 [] addrs)

-- The map that `active` refers to.
abbrev pub select : Which → AddrSet → AddrSet → AddrSet
select primary_set p s = p
select secondary_set p s = s

abbrev pub active_set : Region → AddrSet
active_set r = select r.active r.primary r.secondary

abbrev pub or_else : Option EdgeAddr → Option EdgeAddr → Option EdgeAddr
or_else none b = b
or_else (some a) b = some a

unfoldable pub region_addr_used_by : Order → Region → ℕ → Option EdgeAddr
region_addr_used_by order r conn =
    or_else (addr_used_by order r.primary conn) (addr_used_by order r.secondary conn)

unfoldable pub region_available_addrs : Region → ℕ
region_available_addrs r = available_addrs (active_set r)

abbrev pub use_in : Which → Region → EdgeAddr → ℕ → Region
use_in primary_set r a conn = record r { primary = use_addr r.primary a conn }
use_in secondary_set r a conn = record r { secondary = use_addr r.secondary a conn }

-- AssignAnyAddress writes to the map that `active` refers to.
unfoldable pub assign_any_address : Order → Region → ℕ → Option EdgeAddr → Region × Option EdgeAddr
assign_any_address order r conn excluding = elim (get_unused_ip order (active_set r) excluding) [
  | none ↦ (r, none)
  | some a ↦ (use_in r.active r a conn, some a)
]

unfoldable pub activate_primary : Region → ℕ → Region
activate_primary r now = record r {
  active = primary_set;
  primary_is_active = true;
  primary_timeout = now;
}

-- The part of GiveBack that follows the two maps: what a connectivity error switches.
unfoldable pub after_connectivity_error : Region → EdgeAddr → ℕ → Region
unfolding activate_primary
after_connectivity_error r a now =
    if r.primary_is_active && is_v6 a.ip_version && ltb 0 (length r.secondary)
    then record r {
      active = secondary_set;
      primary_is_active = false;
      primary_timeout = now + r.timeout_duration;
    }
    else if r.primary_is_active
    then r
    else if is_v4 a.ip_version
    then activate_primary r now
    else if ltb r.primary_timeout now
    then activate_primary r now
    else r

-- The addresses given back in the primary map, or else in the secondary.
unfoldable pub give_back_in : Region → EdgeAddr → Region × Bool
give_back_in r a =
    let (p, in_primary) = give_back r.primary a in
    let (s, in_secondary) = give_back r.secondary a in
    if in_primary
    then (record r { primary = p }, true)
    else (record r { secondary = s }, in_secondary)

unfoldable pub region_give_back : Region → EdgeAddr → Bool → ℕ → Region × Bool
region_give_back r a has_connectivity_error now =
    let (r', found) = give_back_in r a in
    if not found
    then (r', false)
    else if not has_connectivity_error
    then (r', true)
    else (after_connectivity_error r' a now, true)
