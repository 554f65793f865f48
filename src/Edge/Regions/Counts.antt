-- ===== src/Edge/Regions/Counts.antt =====
-- edgediscovery/allregions/regions.go: the uses of addresses in both regions, counted, and what the
-- handing out of an unused address does to them.

use cloudflared.Common.{
  ◌==◌, if◌then◌else◌, Option-cases, ℕ, ◌+◌, ◌≤◌, ◌≡◌, subst, ◌↔◌, ◌⊎◌, inl, inr, Bool, true, false,
  Option, none, some, arith,
}
use cloudflared.Common.Count.{count_p, count_p_mono}
use cloudflared.Edge.AddrSet.{
  EdgeAddr, AddrSet, Order, Visits, is_used_by, differs, get_unused_ip, held, key_and,
}
use cloudflared.Edge.Region.{Region, active_set, region_available_addrs, use_in, assign_any_address}
use cloudflared.Edge.Region.Laws.{
  region_held, region_keyed, region_uses, IsRegion, region_addr_used_by-some,
  region_addr_used_by-none, Assigned, assign_any_address-some, assign_any_address-none,
}
use cloudflared.Edge.Regions.{Regions, regions_addr_used_by, regions_available_addrs, get_addrs}

abbrev pub total_held : ℕ → Regions → ℕ
total_held conn rs = region_held conn rs.region1 + region_held conn rs.region2

abbrev pub total_keyed : EdgeAddr → Regions → ℕ
total_keyed a rs = region_keyed a rs.region1 + region_keyed a rs.region2

-- How often an address is in use by a connection, over the edge.
abbrev pub total_uses : ℕ → EdgeAddr → Regions → ℕ
total_uses conn a rs = region_uses conn a rs.region1 + region_uses conn a rs.region2

pub record IsEdge (rs : Regions) : Type 0 where
  pub one_each : (conn : ℕ) → total_held conn rs ≤ 1
  pub distinct : (a : EdgeAddr) → total_keyed a rs ≤ 1
  pub first : IsRegion rs.region1
  pub second : IsRegion rs.region2

pub uses-le-held :
    (conn : ℕ) (a : EdgeAddr) (s : AddrSet) → count_p (key_and a (is_used_by conn)) s ≤ held conn s
uses-le-held conn a s =
    count_p_mono (key_and a (is_used_by conn)) (is_used_by conn) s (λ e h. ground arith)

pub regions_addr_used_by-some :
    (order : Order) (rs : Regions) (conn : ℕ) (a : EdgeAddr)
    → Visits order
    → regions_addr_used_by order rs conn ≡ some a
    → 1 ≤ total_uses conn a rs
unfolding regions_addr_used_by
regions_addr_used_by-some order rs conn a visits e = ground (
  arith,
  region_addr_used_by-some order rs.region1 conn a visits,
  region_addr_used_by-some order rs.region2 conn a visits,
)

pub regions_addr_used_by-none :
    (order : Order) (rs : Regions) (conn : ℕ)
    → Visits order
    → (regions_addr_used_by order rs conn ≡ none) ↔ (total_held conn rs ≡ 0)
unfolding regions_addr_used_by
regions_addr_used_by-none order rs conn visits = ground (
  arith,
  region_addr_used_by-none order rs.region1 conn visits,
  region_addr_used_by-none order rs.region2 conn visits,
)

-- The edge after a connection that held nothing has been given an address.
pub record Given (rs rs' : Regions) (a : EdgeAddr) (conn : ℕ) (excluding : Option EdgeAddr)
    : Type 0 where
  pub users : (c : ℕ) → total_held c rs' ≡ total_held c rs + (if conn == c then 1 else 0)
  pub keys : (b : EdgeAddr) → total_keyed b rs' ≡ total_keyed b rs
  pub other : differs excluding a ≡ true
  pub ours : 1 ≤ total_keyed a rs
  pub mine : 1 ≤ total_uses conn a rs'
  pub fewer : regions_available_addrs rs' + 1 ≡ regions_available_addrs rs
  pub first : IsRegion rs.region1 → IsRegion rs'.region1
  pub second : IsRegion rs.region2 → IsRegion rs'.region2

pub given1 :
    (rs : Regions) (r : Region) (a : EdgeAddr) (conn : ℕ) (excluding : Option EdgeAddr)
    → Assigned rs.region1 r a conn excluding
    → Given rs (record rs { region1 = r }) a conn excluding
unfolding regions_available_addrs
given1 rs r a conn excluding h = record {
  users = λ c. omega (arith, h.users c);
  keys = λ b. omega (arith, h.keys b);
  other = h.other;
  ours = omega (arith, h.ours);
  mine = omega (arith, h.mine);
  fewer = omega (arith, h.fewer);
  first = h.whole;
  second = λ w. w;
}

pub given2 :
    (rs : Regions) (r : Region) (a : EdgeAddr) (conn : ℕ) (excluding : Option EdgeAddr)
    → Assigned rs.region2 r a conn excluding
    → Given rs (record rs { region2 = r }) a conn excluding
unfolding regions_available_addrs
given2 rs r a conn excluding h = record {
  users = λ c. omega (arith, h.users c);
  keys = λ b. omega (arith, h.keys b);
  other = h.other;
  ours = omega (arith, h.ours);
  mine = omega (arith, h.mine);
  fewer = omega (arith, h.fewer);
  first = λ w. w;
  second = h.whole;
}

abbrev pub AssignCases : Order → Region → ℕ → Option EdgeAddr → Type 0
AssignCases order r conn excluding =
    ((a : EdgeAddr) × (r' : Region) × (assign_any_address order r conn excluding ≡ (r', some a))
      × Assigned r r' a conn excluding)
    ⊎ ((assign_any_address order r conn excluding ≡ (r, none))
        × (excluding ≡ none → region_available_addrs r ≡ 0))

abbrev pub AddrsCases : Order → Regions → Option EdgeAddr → ℕ → Bool → Type 0
AddrsCases order rs excluding conn first =
    ((a : EdgeAddr) × (rs' : Regions) × (get_addrs order rs excluding conn first ≡ (rs', some a))
      × Given rs rs' a conn excluding)
    ⊎ ((get_addrs order rs excluding conn first ≡ (rs, none))
        × (excluding ≡ none → regions_available_addrs rs ≡ 0))

-- AssignAnyAddress either gives an address or leaves the region alone.
pub assign_cases :
    (order : Order) (r : Region) (conn : ℕ) (excluding : Option EdgeAddr)
    → Visits order
    → ((b : EdgeAddr) → region_keyed b r ≤ 1)
    → ((a : EdgeAddr) × (r' : Region) × (assign_any_address order r conn excluding ≡ (r', some a))
        × Assigned r r' a conn excluding)
      ⊎ ((assign_any_address order r conn excluding ≡ (r, none))
          × (excluding ≡ none → region_available_addrs r ≡ 0))
unfolding assign_any_address
assign_cases order r conn excluding visits unique =
    elim (Option-cases (get_unused_ip order (active_set r) excluding)) [
      | inl e ↦ inr (
        rw (e, assign_any_address),
        λ anyone.
            assign_any_address-none order r conn visits
              (subst (λ x. get_unused_ip order (active_set r) x ≡ none) anyone e),
      )
      | inr (a, e) ↦ inl (
        a,
        use_in r.active r a conn,
        rw (e, assign_any_address),
        assign_any_address-some order r conn excluding a visits unique e,
      )
    ]

-- So does getAddrs, for either order of the regions.
pub get_addrs_cases :
    (order : Order) (rs : Regions) (excluding : Option EdgeAddr) (conn : ℕ) (first : Bool)
    → Visits order
    → ((b : EdgeAddr) → total_keyed b rs ≤ 1)
    → ((a : EdgeAddr) × (rs' : Regions) × (get_addrs order rs excluding conn first ≡ (rs', some a))
        × Given rs rs' a conn excluding)
      ⊎ ((get_addrs order rs excluding conn first ≡ (rs, none))
          × (excluding ≡ none → regions_available_addrs rs ≡ 0))
unfolding get_addrs regions_available_addrs
get_addrs_cases order rs excluding conn first visits unique = cases first
  where
    one : AssignCases order rs.region1 conn excluding
    one = assign_cases order rs.region1 conn excluding visits (λ b. omega (arith, unique b))

    two : AssignCases order rs.region2 conn excluding
    two = assign_cases order rs.region2 conn excluding visits (λ b. omega (arith, unique b))

    cases : (first : Bool) → AddrsCases order rs excluding conn first
    cases true = elim one [
      | inl (a, r, e, h) ↦
          inl (a, record rs { region1 = r }, ground (arith, e), given1 rs r a conn excluding h)
      | inr (e, empty1) ↦ elim two [
        | inl (a, r, e', h) ↦
            inl
              (a, record rs { region2 = r }, ground (arith, e, e'), given2 rs r a conn excluding h)
        | inr (e', empty2) ↦ inr (ground (arith, e, e'), λ n. omega (arith, empty1 n, empty2 n))
      ]
    ]
    cases false = elim two [
      | inl (a, r, e, h) ↦
          inl (a, record rs { region2 = r }, ground (arith, e), given2 rs r a conn excluding h)
      | inr (e, empty2) ↦ elim one [
        | inl (a, r, e', h) ↦
            inl
              (a, record rs { region1 = r }, ground (arith, e, e'), given1 rs r a conn excluding h)
        | inr (e', empty1) ↦ inr (ground (arith, e, e'), λ n. omega (arith, empty1 n, empty2 n))
      ]
    ]
