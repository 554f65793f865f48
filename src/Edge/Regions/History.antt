-- ===== src/Edge/Regions/History.antt =====
-- The edge over any series of calls, from the addresses that were discovered.

-- How often a pointer occurs among the addresses discovered, in one version or in all.
use cloudflared.Common.{
  ◌==◌, if◌then◌else◌, Bool-cases, All, ℕ, ◌+◌, ◌≤◌, ◌≡◌, refl, subst, inl, inr, Bool, false, ◌&&◌,
  some, List, [], ◌∷◌, arith,
}
use cloudflared.Edge.AddrSet.{
  IpVersion, EdgeAddr, unused, AddrSet, Order, Visits, assign, keyed, held,
}
use cloudflared.Edge.Region.{
  ConfigIpVersion, auto, ipv4_only, ipv6_only, Region, is_v4, is_v6, addrs_of, system_preference,
  new_region, region_give_back,
}
use cloudflared.Edge.Region.Laws.{
  region_held, region_keyed, IsRegion, region_give_back-found, region_give_back-missing,
}
use cloudflared.Edge.Regions.{
  Regions, resolve_edge, regions_give_back, get_addr, get_different_addr,
}
use cloudflared.Edge.Regions.Counts.{total_keyed, IsEdge}
use cloudflared.Edge.Regions.Returns.{regions_give_back-GivenBack}
use cloudflared.Edge.Regions.Laws.{get_addr-IsEdge, get_different_addr-IsEdge}
use mathlib.Core.Option.{some-injective}
use native.Mathlib.Decide.{ℕ_discrete}

abbrev version_count : (IpVersion → Bool) → EdgeAddr → List EdgeAddr → ℕ
version_count version b [] = 0
version_count version b (a ∷ rest) =
    (if version a.ip_version && a.id == b.id then 1 else 0) + version_count version b rest

abbrev pub occurrences : EdgeAddr → List EdgeAddr → ℕ
occurrences b [] = 0
occurrences b (a ∷ rest) = (if a.id == b.id then 1 else 0) + occurrences b rest

versions-sum :
    (b : EdgeAddr) (addrs : List EdgeAddr)
    → version_count is_v4 b addrs + version_count is_v6 b addrs ≡ occurrences b addrs
versions-sum b [] = refl
versions-sum b (a ∷ rest) = ground (arith, versions-sum b rest)

assign-unused-held : (c : ℕ) (s : AddrSet) (a : EdgeAddr) → held c (assign s a unused) ≤ held c s
unfolding assign
assign-unused-held c [] a = ground arith
assign-unused-held c ((b, w) ∷ s) a = ground (arith, assign-unused-held c s a)

assign-unused-keyed :
    (b : EdgeAddr) (s : AddrSet) (a : EdgeAddr)
    → keyed b (assign s a unused) ≤ keyed b s + (if a.id == b.id then 1 else 0)
unfolding assign
assign-unused-keyed b [] a = ground arith
assign-unused-keyed b ((c, w) ∷ s) a = ground (arith, assign-unused-keyed b s a)

addrs_of-held :
    (version : IpVersion → Bool) (c : ℕ) (s : AddrSet) (addrs : List EdgeAddr)
    → held c (addrs_of version s addrs) ≤ held c s
unfolding addrs_of
addrs_of-held version c s [] = omega arith
addrs_of-held version c s (a ∷ rest) = elim (Bool-cases (version a.ip_version)) [
  | inl e ↦
      rw e
        (omega (arith, assign-unused-held c s a, addrs_of-held version c (assign s a unused) rest))
  | inr e ↦ rw e (addrs_of-held version c s rest)
]

addrs_of-keyed :
    (version : IpVersion → Bool) (b : EdgeAddr) (s : AddrSet) (addrs : List EdgeAddr)
    → keyed b (addrs_of version s addrs) ≤ keyed b s + version_count version b addrs
unfolding addrs_of
addrs_of-keyed version b s [] = omega arith
addrs_of-keyed version b s (a ∷ rest) = elim (Bool-cases (version a.ip_version)) [
  | inl e ↦
      rw e (
        ground
          (arith, assign-unused-keyed b s a, addrs_of-keyed version b (assign s a unused) rest))
  | inr e ↦ rw e (omega (arith, addrs_of-keyed version b s rest))
]

-- A region that was just made: nothing is in use, and an address occurs at most as often as in the list.
record IsNew (r : Region) (addrs : List EdgeAddr) : Type 0 where
  free : (c : ℕ) → region_held c r ≡ 0
  once : (b : EdgeAddr) → region_keyed b r ≤ occurrences b addrs
  whole : IsRegion r

new_region-IsNew :
    (addrs : List EdgeAddr) (version : ConfigIpVersion) → IsNew (new_region addrs version) addrs
unfolding new_region
new_region-IsNew addrs ipv4_only = record {
  free = λ c. omega (arith, addrs_of-held is_v4 c [] addrs);
  once = λ b. omega (arith, addrs_of-keyed is_v4 b [] addrs, versions-sum b addrs);
  whole = ground arith;
}
new_region-IsNew addrs ipv6_only = record {
  free = λ c. omega (arith, addrs_of-held is_v6 c [] addrs);
  once = λ b. omega (arith, addrs_of-keyed is_v6 b [] addrs, versions-sum b addrs);
  whole = ground arith;
}
new_region-IsNew addrs auto = elim (Bool-cases (is_v4 (system_preference addrs))) [
  | inl e ↦ rw e (record {
    free = λ c. omega (arith, addrs_of-held is_v4 c [] addrs, addrs_of-held is_v6 c [] addrs);
    once = λ b. omega (
      arith,
      addrs_of-keyed is_v4 b [] addrs,
      addrs_of-keyed is_v6 b [] addrs,
      versions-sum b addrs,
    );
    whole = ground arith;
  })
  | inr e ↦ rw e (record {
    free = λ c. omega (arith, addrs_of-held is_v4 c [] addrs, addrs_of-held is_v6 c [] addrs);
    once = λ b. omega (
      arith,
      addrs_of-keyed is_v4 b [] addrs,
      addrs_of-keyed is_v6 b [] addrs,
      versions-sum b addrs,
    );
    whole = ground arith;
  })
]

pub data EdgeCall : Type 0 where
  gets : ℕ → EdgeCall
  gets_different : ℕ → Bool → EdgeCall
  gives_back : EdgeAddr → Bool → EdgeCall

-- One call, with the order of the maps, the time and the draw that it meets.
pub step : Regions → Order × ℕ × Bool × EdgeCall → Regions
step rs (order, now, coin, gets conn) = (get_addr order rs conn coin).0
step rs (order, now, coin, gets_different conn connectivity) =
    (get_different_addr order rs conn connectivity now coin).0
step rs (order, now, coin, gives_back a connectivity) = (regions_give_back rs a connectivity now).0

pub run : Regions → List (Order × ℕ × Bool × EdgeCall) → Regions
run rs [] = rs
run rs (c ∷ calls) = run (step rs c) calls

-- An address of no region changes nothing.
region_give_back-same :
    (r : Region) (a : EdgeAddr) (connectivity : Bool) (now : ℕ)
    → ((b : EdgeAddr) → region_keyed b r ≤ 1)
    → region_keyed a r ≡ 0
    → region_give_back r a connectivity now ≡ (r, false)
region_give_back-same r a connectivity now unique away =
    elim (Bool-cases (region_give_back r a connectivity now).1) [
      | inl hit ↦
          let back = region_give_back-found r a connectivity now unique hit in
          absurd (omega (arith, back.ours))
      | inr miss ↦
          let (same, _) = region_give_back-missing r a connectivity now miss in ground (arith, same)
    ]

regions_give_back_missing :
    (rs : Regions) (a : EdgeAddr) (connectivity : Bool) (now : ℕ)
    → ((b : EdgeAddr) → total_keyed b rs ≤ 1)
    → total_keyed a rs ≡ 0
    → (regions_give_back rs a connectivity now).0 ≡ rs
unfolding regions_give_back
regions_give_back_missing rs a connectivity now unique away = ground (
  arith,
  region_give_back-same rs.region1 a connectivity now (λ b. omega (arith, unique b)) (omega arith),
  region_give_back-same rs.region2 a connectivity now (λ b. omega (arith, unique b)) (omega arith),
)

regions_give_back-IsEdge :
    (rs : Regions) (a : EdgeAddr) (connectivity : Bool) (now : ℕ)
    → IsEdge rs
    → IsEdge (regions_give_back rs a connectivity now).0
regions_give_back-IsEdge rs a connectivity now h = elim (ℕ_discrete (total_keyed a rs) 0) [
  | yes away ↦
      rw (regions_give_back_missing rs a connectivity now (λ b. omega (arith, h.distinct b)) away) h
  | no there ↦
      let (_, g) = regions_give_back-GivenBack rs a connectivity now h.distinct (omega arith) in
      record {
        one_each = λ c. omega (arith, g.users c, h.one_each c);
        distinct = λ b. rw (g.keys b) (h.distinct b);
        first = g.first h.first;
        second = g.second h.second;
      }
]

step-IsEdge :
    (rs : Regions) (c : Order × ℕ × Bool × EdgeCall) → Visits c.0 → IsEdge rs → IsEdge (step rs c)
unfolding step
step-IsEdge rs (order, now, coin, gets conn) visits h = get_addr-IsEdge order rs conn coin visits h
step-IsEdge rs (order, now, coin, gets_different conn connectivity) visits h =
    get_different_addr-IsEdge order rs conn connectivity now coin visits h
step-IsEdge rs (order, now, coin, gives_back a connectivity) visits h =
    regions_give_back-IsEdge rs a connectivity now h

run-IsEdge :
    (rs : Regions) (calls : List (Order × ℕ × Bool × EdgeCall))
    → All (λ c. Visits c.0) calls
    → IsEdge rs
    → IsEdge (run rs calls)
unfolding run
run-IsEdge rs [] visits h = h
run-IsEdge rs (c ∷ calls) visits h =
    run-IsEdge (step rs c) calls visits.1 (step-IsEdge rs c visits.0 h)

-- From the addresses that were discovered, with no pointer twice among the two regions', the edge is
-- well formed after any series of GetAddr, GetDifferentAddr and GiveBack by any connections: no
-- connection holds two addresses, and no region fails over to an empty map.
pub run-resolve_edge-IsEdge :
    (a b : List EdgeAddr) (rest : List (List EdgeAddr)) (version : ConfigIpVersion)
    (calls : List (Order × ℕ × Bool × EdgeCall)) (rs : Regions)
    → ((x : EdgeAddr) → occurrences x a + occurrences x b ≤ 1)
    → All (λ c. Visits c.0) calls
    → resolve_edge (some (a ∷ b ∷ rest)) version ≡ some rs
    → IsEdge (run rs calls)
unfolding resolve_edge
run-resolve_edge-IsEdge a b rest version calls rs distinct visits e =
    let one = new_region-IsNew a version in
    let two = new_region-IsNew b version in
    let fresh : IsEdge (record { region1 = new_region a version; region2 = new_region b version }) =
      record {
        one_each = λ c. omega (arith, one.free c, two.free c);
        distinct = λ x. omega (arith, one.once x, two.once x, distinct x);
        first = one.whole;
        second = two.whole;
      } in
    run-IsEdge rs calls visits (subst IsEdge (some-injective _ _ e) fresh)
