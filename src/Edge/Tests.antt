-- ===== src/Edge/Tests.antt =====
-- The edge theorems on two regions of two addresses, visited front to back.

use cloudflared.Common.{ℕ, ◌+◌, ◌≤◌, ◌≡◌, refl, ◌≢◌, ◌↔◌, true, false, none, some, [], ◌∷◌, arith}
use cloudflared.Common.Count.{find_p}
use cloudflared.Edge.AddrSet.{
  v4, v6, EdgeAddr, in_use, unused, Order, Visits, addr_used_by, available_addrs, get_unused_ip,
  assign, use_addr, give_back,
}
use cloudflared.Edge.Region.{
  secondary_set, auto, region_of, new_region, region_addr_used_by, region_available_addrs,
  assign_any_address, after_connectivity_error, give_back_in, region_give_back,
}
use cloudflared.Edge.Regions.{
  Regions, resolve_edge, regions_addr_used_by, regions_available_addrs, get_addrs, first_choice,
  get_unused_addr, regions_give_back, get_addr, get_different_addr,
}
use cloudflared.Edge.Regions.Counts.{total_held, total_uses, IsEdge}
use cloudflared.Edge.Regions.Laws.{get_addr_fails, get_addr_gives}
use cloudflared.Edge.Regions.Balance.{IsBalanced, get_unused_addr-IsBalanced}
use cloudflared.Edge.Regions.History.{
  occurrences, gets, gets_different, gives_back, run, run-resolve_edge-IsEdge,
}

abbrev front : Order
front s = s

front-Visits : Visits front
front-Visits p s = refl

abbrev a1 : EdgeAddr
a1 = record { id = 1; ip_version = v6 }

abbrev a2 : EdgeAddr
a2 = record { id = 2; ip_version = v4 }

abbrev b1 : EdgeAddr
b1 = record { id = 3; ip_version = v6 }

abbrev b2 : EdgeAddr
b2 = record { id = 4; ip_version = v6 }

abbrev one_used : Regions
one_used = record {
  region1 = region_of ((a1, in_use 7) ∷ []) ((a2, unused) ∷ []);
  region2 = region_of ((b1, unused) ∷ (b2, unused) ∷ []) [];
}

abbrev small : Regions
small = record {
  region1 = region_of ((a1, unused) ∷ []) ((a2, unused) ∷ []);
  region2 = region_of ((b1, unused) ∷ (b2, unused) ∷ []) [];
}

resolved : resolve_edge (some ((a1 ∷ a2 ∷ []) ∷ (b1 ∷ b2 ∷ []) ∷ [])) auto ≡ some small
unfolding resolve_edge new_region assign
resolved = refl

distinct_pointers : (x : EdgeAddr) → occurrences x (a1 ∷ a2 ∷ []) + occurrences x (b1 ∷ b2 ∷ []) ≤ 1
distinct_pointers x = ground arith

one_used-IsEdge : IsEdge one_used
one_used-IsEdge = record {
  one_each = λ c. ground arith;
  distinct = λ x. ground arith;
  first = record { flag = refl; stocked = λ e. cc };
  second = record { flag = refl; stocked = λ e. cc };
}

small-IsEdge : IsEdge small
small-IsEdge = record {
  one_each = λ c. ground arith;
  distinct = λ x. ground arith;
  first = record { flag = refl; stocked = λ e. cc };
  second = record { flag = refl; stocked = λ e. cc };
}

-- A connectivity error on an IPv6 address makes the region fail over.
failed_over : (get_different_addr front one_used 7 true 100 false).0.region1.active ≡ secondary_set
unfolding get_different_addr regions_addr_used_by region_addr_used_by addr_used_by find_p
    regions_give_back region_give_back give_back_in give_back after_connectivity_error
    get_unused_addr get_addrs assign_any_address get_unused_ip first_choice region_available_addrs
    available_addrs use_addr assign
failed_over = refl

get_addr_gives_example :
    let rs' = (get_addr front one_used 7 true).0 in
    (total_uses 7 a1 rs' ≡ 1)
    × (total_held 7 rs' ≡ 1)
    × ((c : ℕ) → c ≢ 7 → total_held c rs' ≡ total_held c one_used)
    × ((b : EdgeAddr) × (get_addr front rs' 7 false ≡ (rs', some b)) × (b.id ≡ a1.id))
unfolding get_addr regions_addr_used_by region_addr_used_by addr_used_by find_p
get_addr_gives_example =
    get_addr_gives front front one_used 7 true false a1 front-Visits front-Visits one_used-IsEdge
      refl

get_addr_fails_example :
    ((get_addr front one_used 8 true).1 ≡ none)
    ↔ ((total_held 8 one_used ≡ 0) × (regions_available_addrs one_used ≡ 0))
get_addr_fails_example = get_addr_fails front one_used 8 true front-Visits one_used-IsEdge

get_unused_addr-IsBalanced_example : IsBalanced (get_unused_addr front small none 8 true).0
unfolding region_available_addrs available_addrs
get_unused_addr-IsBalanced_example =
    get_unused_addr-IsBalanced front small 8 true front-Visits small-IsEdge
      (omega arith, omega arith)

run-resolve_edge-IsEdge_example : IsEdge (
    run small (
      (front, 1, true, gets 7)
      ∷ (front, 2, true, gets_different 7 true)
      ∷ (front, 3, false, gives_back b1 false)
      ∷ []))
run-resolve_edge-IsEdge_example =
    run-resolve_edge-IsEdge (a1 ∷ a2 ∷ []) (b1 ∷ b2 ∷ []) [] auto
      ((front, 1, true, gets 7)
        ∷ (front, 2, true, gets_different 7 true)
        ∷ (front, 3, false, gives_back b1 false)
        ∷ [])
      small distinct_pointers (front-Visits, (front-Visits, (front-Visits, tt))) resolved
