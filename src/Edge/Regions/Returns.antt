-- ===== src/Edge/Regions/Returns.antt =====
-- edgediscovery/allregions/regions.go: what giving an address back does to the counts.

use cloudflared.Common.{
  Bool-cases, ℕ, ◌+◌, ◌≤◌, ◌≡◌, refl, inl, inr, Bool, true, false, Option, arith,
}
use cloudflared.Edge.AddrSet.{EdgeAddr, is_used_by, key_and-le-keyed}
use cloudflared.Edge.Region.{Region, region_give_back}
use cloudflared.Edge.Region.Laws.{
  region_keyed, region_uses, IsRegion, region_give_back-found, region_give_back-missing,
}
use cloudflared.Edge.Regions.{Regions, regions_give_back}
use cloudflared.Edge.Regions.Counts.{total_held, total_keyed, total_uses, IsEdge, Given}

-- The edge after a connection has given its address back.
pub record GivenBack (rs rs' : Regions) (a : EdgeAddr) : Type 0 where
  pub users : (c : ℕ) → total_held c rs' + total_uses c a rs ≡ total_held c rs
  pub keys : (b : EdgeAddr) → total_keyed b rs' ≡ total_keyed b rs
  pub first : IsRegion rs.region1 → IsRegion rs'.region1
  pub second : IsRegion rs.region2 → IsRegion rs'.region2

pub region_uses-le-keyed :
    (c : ℕ) (a : EdgeAddr) (r : Region) → region_uses c a r ≤ region_keyed a r
region_uses-le-keyed c a r = omega (
  arith,
  key_and-le-keyed a (is_used_by c) r.primary,
  key_and-le-keyed a (is_used_by c) r.secondary,
)

pub regions_give_back-GivenBack :
    (rs : Regions) (a : EdgeAddr) (connectivity : Bool) (now : ℕ)
    → ((b : EdgeAddr) → total_keyed b rs ≤ 1)
    → 1 ≤ total_keyed a rs
    → ((regions_give_back rs a connectivity now).1 ≡ true)
      × GivenBack rs (regions_give_back rs a connectivity now).0 a
unfolding regions_give_back
regions_give_back-GivenBack rs a connectivity now unique there =
    elim (Bool-cases (region_give_back rs.region1 a connectivity now).1) [
      | inl hit ↦ rw hit (refl, from_first hit)
      | inr miss ↦
          let (same, away) = region_give_back-missing rs.region1 a connectivity now miss in
          rw (miss, same) (in_second miss away, from_second (in_second miss away))
    ]
  where
    from_first :
        (region_give_back rs.region1 a connectivity now).1 ≡ true
        → GivenBack rs
            (record rs { region1 = (region_give_back rs.region1 a connectivity now).0 })
            a
    from_first hit =
        let h =
          region_give_back-found rs.region1 a connectivity now (λ b. omega (arith, unique b)) hit in
        record {
          users =
              λ c. omega (arith, h.users c, h.ours, unique a, region_uses-le-keyed c a rs.region2);
          keys = λ b. omega (arith, h.keys b);
          first = h.whole;
          second = λ w. w;
        }

    in_second :
        (region_give_back rs.region1 a connectivity now).1 ≡ false
        → region_keyed a rs.region1 ≡ 0
        → (region_give_back rs.region2 a connectivity now).1 ≡ true
    in_second miss away = elim (Bool-cases (region_give_back rs.region2 a connectivity now).1) [
      | inl hit ↦ hit
      | inr miss2 ↦
          let (_, gone) = region_give_back-missing rs.region2 a connectivity now miss2 in
          absurd (omega arith)
    ]

    from_second :
        (region_give_back rs.region2 a connectivity now).1 ≡ true
        → GivenBack rs
            (record rs { region2 = (region_give_back rs.region2 a connectivity now).0 })
            a
    from_second hit =
        let h =
          region_give_back-found rs.region2 a connectivity now (λ b. omega (arith, unique b)) hit in
        record {
          users =
              λ c. omega (arith, h.users c, h.ours, unique a, region_uses-le-keyed c a rs.region1);
          keys = λ b. omega (arith, h.keys b);
          first = λ w. w;
          second = h.whole;
        }

-- A connection that holds nothing is given an address by GetUnusedAddr, on a well-formed edge.
pub Given-IsEdge :
    (rs rs' : Regions) (a : EdgeAddr) (conn : ℕ) (excluding : Option EdgeAddr)
    → IsEdge rs
    → total_held conn rs ≡ 0
    → Given rs rs' a conn excluding
    → IsEdge rs'
Given-IsEdge rs rs' a conn excluding h nothing g = record {
  one_each = λ c. ground (arith, g.users c, h.one_each c);
  distinct = λ b. rw (g.keys b) (h.distinct b);
  first = g.first h.first;
  second = g.second h.second;
}
