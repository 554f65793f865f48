-- ===== src/Edge/Regions.antt =====
-- edgediscovery/allregions/regions.go and edgediscovery/edgediscovery.go: the two regions and Edge.
-- The draw of `rand.Intn(2)` and the clock are arguments; `none` is the error of no addresses left.
pub mod Counts
pub mod Returns
pub mod Laws
pub mod History
pub mod Balance
use cloudflared.Common.{
  ltb, ◌==◌, if◌then◌else◌, ℕ, ◌+◌, Bool, true, false, Option, none, some, List, [], ◌∷◌,
}
use cloudflared.Edge.AddrSet.{EdgeAddr, Order, get_any_address}
use cloudflared.Edge.Region.{
  ConfigIpVersion, auto, Region, new_region, active_set, or_else, region_addr_used_by,
  region_available_addrs, assign_any_address, region_give_back,
}

pub record Regions : Type 0 where
  pub region1 : Region
  pub region2 : Region

-- NewNoResolve: the addresses at even positions, and those at odd ones.
unfoldable pub evens : List EdgeAddr → List EdgeAddr
evens [] = []
evens (a ∷ []) = a ∷ []
evens (a ∷ b ∷ rest) = a ∷ evens rest

unfoldable pub odds : List EdgeAddr → List EdgeAddr
odds [] = []
odds (a ∷ []) = []
odds (a ∷ b ∷ rest) = b ∷ odds rest

unfoldable pub new_no_resolve : List EdgeAddr → Regions
unfolding evens odds
new_no_resolve addrs = record {
  region1 = new_region (evens addrs) auto;
  region2 = new_region (odds addrs) auto;
}

-- ResolveEdge, from the lists of addresses that were discovered.
unfoldable pub resolve_edge : Option (List (List EdgeAddr)) → ConfigIpVersion → Option Regions
resolve_edge none version = none
resolve_edge (some []) version = none
resolve_edge (some (a ∷ [])) version = none
resolve_edge (some (a ∷ b ∷ rest)) version =
    some (record { region1 = new_region a version; region2 = new_region b version })

-- GetAnyAddress, Edge.GetAddrForRPC
unfoldable pub get_addr_for_rpc : Order → Regions → Option EdgeAddr
get_addr_for_rpc order rs =
    or_else (get_any_address order (active_set rs.region1))
      (get_any_address order (active_set rs.region2))

unfoldable pub regions_addr_used_by : Order → Regions → ℕ → Option EdgeAddr
regions_addr_used_by order rs conn =
    or_else (region_addr_used_by order rs.region1 conn) (region_addr_used_by order rs.region2 conn)

unfoldable pub regions_available_addrs : Regions → ℕ
regions_available_addrs rs = region_available_addrs rs.region1 + region_available_addrs rs.region2

-- getAddrs with `first` being region 1 (true) or region 2 (false).
unfoldable pub get_addrs : Order → Regions → Option EdgeAddr → ℕ → Bool → Regions × Option EdgeAddr
get_addrs order rs excluding conn true =
    let (r1, got) = assign_any_address order rs.region1 conn excluding in
    let (r2, other) = assign_any_address order rs.region2 conn excluding in
    elim got [
      | some a ↦ (record rs { region1 = r1 }, some a)
      | none ↦ (record rs { region2 = r2 }, other)
    ]
get_addrs order rs excluding conn false =
    let (r2, got) = assign_any_address order rs.region2 conn excluding in
    let (r1, other) = assign_any_address order rs.region1 conn excluding in
    elim got [
      | some a ↦ (record rs { region2 = r2 }, some a)
      | none ↦ (record rs { region1 = r1 }, other)
    ]

-- Which region GetUnusedAddr asks first: the one with more unused addresses, or one drawn.
unfoldable pub first_choice : Regions → Bool → Bool
first_choice rs coin =
    let n1 = region_available_addrs rs.region1 in
    let n2 = region_available_addrs rs.region2 in if n1 == n2 then coin else ltb n2 n1

unfoldable pub get_unused_addr :
    Order → Regions → Option EdgeAddr → ℕ → Bool → Regions × Option EdgeAddr
get_unused_addr order rs excluding conn coin =
    get_addrs order rs excluding conn (first_choice rs coin)

-- Regions.GiveBack, Edge.GiveBack
unfoldable pub regions_give_back : Regions → EdgeAddr → Bool → ℕ → Regions × Bool
regions_give_back rs a has_connectivity_error now =
    let (r1, in_first) = region_give_back rs.region1 a has_connectivity_error now in
    let (r2, in_second) = region_give_back rs.region2 a has_connectivity_error now in
    if in_first
    then (record rs { region1 = r1 }, true)
    else (record rs { region1 = r1; region2 = r2 }, in_second)

-- Edge.GetAddr
unfoldable pub get_addr : Order → Regions → ℕ → Bool → Regions × Option EdgeAddr
get_addr order rs conn coin = elim (regions_addr_used_by order rs conn) [
  | some a ↦ (rs, some a)
  | none ↦ get_unused_addr order rs none conn coin
]

-- Edge.GetDifferentAddr
unfoldable pub get_different_addr :
    Order → Regions → ℕ → Bool → ℕ → Bool → Regions × Option EdgeAddr
get_different_addr order rs conn has_connectivity_error now coin =
    elim (regions_addr_used_by order rs conn) [
      | none ↦ get_unused_addr order rs none conn coin
      | some old ↦
          get_unused_addr order (regions_give_back rs old has_connectivity_error now).0 (some old)
            conn coin
    ]
