-- ===== src/Edge/Regions/Balance.antt =====
-- New addresses are taken from the two regions in turn.

use cloudflared.Common.{
  Bool-cases, ℕ, ◌+◌, ◌≤◌, ◌≡◌, refl, inl, inr, Bool, true, false, none, some, arith,
}
use cloudflared.Edge.AddrSet.{Order, Visits}
use cloudflared.Edge.Region.{region_available_addrs}
use cloudflared.Edge.Regions.{Regions, get_addrs, first_choice, get_unused_addr}
use cloudflared.Edge.Regions.Counts.{IsEdge, AssignCases, assign_cases}

-- The numbers of unused addresses in the two active maps differ by one at most.
abbrev pub IsBalanced : Regions → Type 0
IsBalanced rs =
    (region_available_addrs rs.region1 ≤ region_available_addrs rs.region2 + 1)
    × (region_available_addrs rs.region2 ≤ region_available_addrs rs.region1 + 1)

first_choice-region1 :
    (rs : Regions) (coin : Bool)
    → first_choice rs coin ≡ true
    → region_available_addrs rs.region2 ≤ region_available_addrs rs.region1
unfolding first_choice
first_choice-region1 rs coin e = ground arith

first_choice-region2 :
    (rs : Regions) (coin : Bool)
    → first_choice rs coin ≡ false
    → region_available_addrs rs.region1 ≤ region_available_addrs rs.region2
unfolding first_choice
first_choice-region2 rs coin e = ground arith

-- On an edge that is well formed, if the numbers of unused addresses of the two regions' active maps
-- differ by at most one, then they do so again after a connection has asked for an unused address
-- with none excluded, whichever region the draw prefers and in whatever order the maps are visited.
pub get_unused_addr-IsBalanced :
    (order : Order) (rs : Regions) (conn : ℕ) (coin : Bool)
    → Visits order
    → IsEdge rs
    → IsBalanced rs
    → IsBalanced (get_unused_addr order rs none conn coin).0
unfolding get_unused_addr get_addrs
get_unused_addr-IsBalanced order rs conn coin visits h even =
    elim (Bool-cases (first_choice rs coin)) [
      | inl f ↦
          let more = first_choice-region1 rs coin f in
          elim one [
            | inl (a, r, e, g) ↦
                let q : get_addrs order rs none conn true ≡ (record rs { region1 = r }, some a) =
                  ground (arith, e) in
                rw (f, q) (omega (arith, g.fewer), omega (arith, g.fewer))
            | inr (e, empty) ↦ elim two [
              | inl (a, r, e', g) ↦ absurd (omega (arith, g.fewer, empty refl))
              | inr (e', empty') ↦
                  let q : get_addrs order rs none conn true ≡ (rs, none) = ground (arith, e, e') in
                  rw (f, q) even
            ]
          ]
      | inr f ↦
          let more = first_choice-region2 rs coin f in
          elim two [
            | inl (a, r, e, g) ↦
                let q : get_addrs order rs none conn false ≡ (record rs { region2 = r }, some a) =
                  ground (arith, e) in
                rw (f, q) (omega (arith, g.fewer), omega (arith, g.fewer))
            | inr (e, empty) ↦ elim one [
              | inl (a, r, e', g) ↦ absurd (omega (arith, g.fewer, empty refl))
              | inr (e', empty') ↦
                  let q : get_addrs order rs none conn false ≡ (rs, none) = ground (arith, e, e') in
                  rw (f, q) even
            ]
          ]
    ]
  where
    one : AssignCases order rs.region1 conn none
    one = assign_cases order rs.region1 conn none visits (λ b. omega (arith, h.distinct b))

    two : AssignCases order rs.region2 conn none
    two = assign_cases order rs.region2 conn none visits (λ b. omega (arith, h.distinct b))
