-- ===== src/Edge/Regions/Laws.antt =====
-- What a connection gets from the edge: at most one address, the same as long as it keeps it.

use cloudflared.Common.{
  Option-cases, ℕ, ◌+◌, ◌≤◌, ◌≡◌, refl, subst, ◌≢◌, ◌↔◌, ◌⊎◌, inl, inr, Bool, true, Option, none,
  some, arith,
}
use cloudflared.Edge.AddrSet.{EdgeAddr, Order, Visits, differs}
use cloudflared.Edge.AddrSet.Laws.{uses_apart, uses_exclusive}
use cloudflared.Edge.Regions.{
  Regions, regions_addr_used_by, regions_available_addrs, first_choice, get_unused_addr,
  regions_give_back, get_addr, get_different_addr,
}
use cloudflared.Edge.Regions.Counts.{
  total_held, total_keyed, total_uses, IsEdge, uses-le-held, regions_addr_used_by-some,
  regions_addr_used_by-none, Given, get_addrs_cases,
}
use cloudflared.Edge.Regions.Returns.{
  region_uses-le-keyed, regions_give_back-GivenBack, Given-IsEdge,
}
use mathlib.Core.Option.{some-injective}
use native.Mathlib.Decide.{ℕ_discrete}

abbrev UnusedCases : Order → Regions → Option EdgeAddr → ℕ → Bool → Type 0
UnusedCases order rs excluding conn coin =
    ((a : EdgeAddr) × (rs' : Regions) × (get_unused_addr order rs excluding conn coin
        ≡ (rs', some a))
      × Given rs rs' a conn excluding)
    ⊎ ((get_unused_addr order rs excluding conn coin ≡ (rs, none))
        × (excluding ≡ none → regions_available_addrs rs ≡ 0))

get_unused_addr_cases :
    (order : Order) (rs : Regions) (excluding : Option EdgeAddr) (conn : ℕ) (coin : Bool)
    → Visits order
    → IsEdge rs
    → UnusedCases order rs excluding conn coin
unfolding get_unused_addr
get_unused_addr_cases order rs excluding conn coin visits h =
    get_addrs_cases order rs excluding conn (first_choice rs coin) visits h.distinct

-- What GetAddr does, in its three cases: the address that the connection uses already, a new one,
-- or none.
pub data GetAddrCases (order : Order) (rs : Regions) (conn : ℕ) (coin : Bool) : Type 0 where
  kept :
      (a : EdgeAddr)
      → get_addr order rs conn coin ≡ (rs, some a)
      → 1 ≤ total_uses conn a rs
      → GetAddrCases order rs conn coin
  given :
      (a : EdgeAddr) (rs' : Regions)
      → get_addr order rs conn coin ≡ (rs', some a)
      → total_held conn rs ≡ 0
      → Given rs rs' a conn none
      → GetAddrCases order rs conn coin
  nothing :
      get_addr order rs conn coin ≡ (rs, none)
      → total_held conn rs ≡ 0
      → regions_available_addrs rs ≡ 0
      → GetAddrCases order rs conn coin

get_addr_cases :
    (order : Order) (rs : Regions) (conn : ℕ) (coin : Bool)
    → Visits order
    → IsEdge rs
    → GetAddrCases order rs conn coin
unfolding get_addr
get_addr_cases order rs conn coin visits h =
    elim (Option-cases (regions_addr_used_by order rs conn)) [
      | inr (a, e) ↦ kept a (rw (e, get_addr)) (regions_addr_used_by-some order rs conn a visits e)
      | inl e ↦
          let free : total_held conn rs ≡ 0 =
            (regions_addr_used_by-none order rs conn visits).0 e in
          elim (get_unused_addr_cases order rs none conn coin visits h) [
            | inl (a, rs', e', g) ↦ given a rs' (rw (e, get_addr) e') free g
            | inr (e', empty) ↦ nothing (rw (e, get_addr) e') free (empty refl)
          ]
    ]

-- GetAddr keeps the edge well formed: every connection in at most one address, every address in one
-- place, and each region's active map the one that its flag names.
pub get_addr-IsEdge :
    (order : Order) (rs : Regions) (conn : ℕ) (coin : Bool)
    → Visits order
    → IsEdge rs
    → IsEdge (get_addr order rs conn coin).0
get_addr-IsEdge order rs conn coin visits h = elim (get_addr_cases order rs conn coin visits h) [
  | kept a e uses ↦ rw e h
  | given a rs' e free g ↦ rw e (Given-IsEdge rs rs' a conn none h free g)
  | nothing e free empty ↦ rw e h
]

uses-le-total : (conn : ℕ) (a : EdgeAddr) (rs : Regions) → total_uses conn a rs ≤ total_held conn rs
uses-le-total conn a rs = omega (
  arith,
  uses-le-held conn a rs.region1.primary,
  uses-le-held conn a rs.region1.secondary,
  uses-le-held conn a rs.region2.primary,
  uses-le-held conn a rs.region2.secondary,
)

-- GetAddr fails exactly when the connection has no address and no active map has an unused one.
pub get_addr_fails :
    (order : Order) (rs : Regions) (conn : ℕ) (coin : Bool)
    → Visits order
    → IsEdge rs
    → ((get_addr order rs conn coin).1 ≡ none)
      ↔ ((total_held conn rs ≡ 0) × (regions_available_addrs rs ≡ 0))
get_addr_fails order rs conn coin visits h = elim (get_addr_cases order rs conn coin visits h) [
  | kept a e uses ↦ (rw e cc, λ z. absurd (omega (arith, uses-le-total conn a rs, z.0)))
  | given a rs' e free g ↦ (rw e cc, λ z. absurd (omega (arith, g.fewer, z.1)))
  | nothing e free empty ↦ (rw e (λ _. (free, empty)), rw e (λ _. refl))
]

total_uses_apart :
    (conn : ℕ) (a b : EdgeAddr) (rs : Regions)
    → a.id ≢ b.id
    → total_uses conn a rs + total_uses conn b rs ≤ total_held conn rs
total_uses_apart conn a b rs apart = omega (
  arith,
  uses_apart conn a b rs.region1.primary apart,
  uses_apart conn a b rs.region1.secondary apart,
  uses_apart conn a b rs.region2.primary apart,
  uses_apart conn a b rs.region2.secondary apart,
)

-- A connection that uses an address is given it by GetAddr, and nothing changes.
get_addr_again :
    (order : Order) (rs : Regions) (conn : ℕ) (coin : Bool) (a : EdgeAddr)
    → Visits order
    → IsEdge rs
    → 1 ≤ total_uses conn a rs
    → (b : EdgeAddr) × (get_addr order rs conn coin ≡ (rs, some b)) × (b.id ≡ a.id)
get_addr_again order rs conn coin a visits h uses =
    elim (get_addr_cases order rs conn coin visits h) [
      | kept b e uses' ↦ (
        b,
        e,
        elim (ℕ_discrete b.id a.id) [
          | yes same ↦ same
          | no apart ↦ absurd (omega (arith, total_uses_apart conn b a rs apart, h.one_each conn))
        ],
      )
      | given b rs' e free g ↦ absurd (omega (arith, uses-le-total conn a rs))
      | nothing e free empty ↦ absurd (omega (arith, uses-le-total conn a rs))
    ]

-- An address that GetAddr gives is the connection's from then on: it holds exactly that one, no
-- other connection gains or loses any, and asking again gives it again and changes nothing, in
-- whatever order the maps are visited.
pub get_addr_gives :
    (order again : Order) (rs : Regions) (conn : ℕ) (coin coin' : Bool) (a : EdgeAddr)
    → Visits order
    → Visits again
    → IsEdge rs
    → (get_addr order rs conn coin).1 ≡ some a
    → let rs' = (get_addr order rs conn coin).0 in
      (total_uses conn a rs' ≡ 1)
      × (total_held conn rs' ≡ 1)
      × ((c : ℕ) → c ≢ conn → total_held c rs' ≡ total_held c rs)
      × ((b : EdgeAddr) × (get_addr again rs' conn coin' ≡ (rs', some b)) × (b.id ≡ a.id))
get_addr_gives order again rs conn coin coin' a visits visits' h e =
    elim (get_addr_cases order rs conn coin visits h) [
      | kept b e' uses ↦
          let same : b ≡ a = some-injective _ _ (rw e' at e) in
          rw e' (held_once rs h (subst (λ z. 1 ≤ total_uses conn z rs) same uses) (λ c apart. refl))
      | given b rs' e' free g ↦
          let same : b ≡ a = some-injective _ _ (rw e' at e) in
          rw e' (
            held_once rs' (Given-IsEdge rs rs' b conn none h free g)
              (subst (λ z. 1 ≤ total_uses conn z rs') same g.mine)
              (λ c apart. ground (arith, g.users c)))
      | nothing e' free empty ↦ absurd (none-ne-some (rw e' at e))
    ]
  where
    none-ne-some : ◌≡◌ {A = Option EdgeAddr} none (some a) → ⊥
    none-ne-some z = cc

    held_once :
        (rs' : Regions)
        → IsEdge rs'
        → 1 ≤ total_uses conn a rs'
        → ((c : ℕ) → c ≢ conn → total_held c rs' ≡ total_held c rs)
        → (total_uses conn a rs' ≡ 1)
          × (total_held conn rs' ≡ 1)
          × ((c : ℕ) → c ≢ conn → total_held c rs' ≡ total_held c rs)
          × ((b : EdgeAddr) × (get_addr again rs' conn coin' ≡ (rs', some b)) × (b.id ≡ a.id))
    held_once rs' h' uses others = (
      omega (arith, uses-le-total conn a rs', h'.one_each conn),
      omega (arith, uses-le-total conn a rs', h'.one_each conn),
      others,
      get_addr_again again rs' conn coin' a visits' h' uses,
    )

total_uses_exclusive :
    (a : EdgeAddr) (conn c : ℕ) (rs : Regions)
    → c ≢ conn
    → total_uses conn a rs + total_uses c a rs ≤ total_keyed a rs
total_uses_exclusive a conn c rs apart = omega (
  arith,
  uses_exclusive a conn c rs.region1.primary apart,
  uses_exclusive a conn c rs.region1.secondary apart,
  uses_exclusive a conn c rs.region2.primary apart,
  uses_exclusive a conn c rs.region2.secondary apart,
)

-- The edge from which GetDifferentAddr asks for an unused address, and the address it leaves out.
record Starts (order : Order) (rs : Regions) (conn : ℕ) (connectivity : Bool) (now : ℕ)
    (coin : Bool) : Type 0 where
  start : Regions
  excluding : Option EdgeAddr
  result :
      get_different_addr order rs conn connectivity now coin
      ≡ get_unused_addr order start excluding conn coin
  edge : IsEdge start
  free : total_held conn start ≡ 0
  others : (c : ℕ) → c ≢ conn → total_held c start ≡ total_held c rs
  new : (a : EdgeAddr) → differs excluding a ≡ true → total_uses conn a rs ≡ 0

get_different_addr-Starts :
    (order : Order) (rs : Regions) (conn : ℕ) (connectivity : Bool) (now : ℕ) (coin : Bool)
    → Visits order
    → IsEdge rs
    → Starts order rs conn connectivity now coin
unfolding get_different_addr
get_different_addr-Starts order rs conn connectivity now coin visits h =
    elim (Option-cases (regions_addr_used_by order rs conn)) [
      | inl e ↦
          let free : total_held conn rs ≡ 0 =
            (regions_addr_used_by-none order rs conn visits).0 e in
          record {
            start = rs;
            excluding = none;
            result = rw (e, get_different_addr);
            edge = h;
            free = free;
            others = λ c apart. refl;
            new = λ a _. omega (arith, uses-le-total conn a rs);
          }
      | inr (old, e) ↦ had old e (regions_addr_used_by-some order rs conn old visits e)
    ]
  where
    had :
        (old : EdgeAddr)
        → regions_addr_used_by order rs conn ≡ some old
        → 1 ≤ total_uses conn old rs
        → Starts order rs conn connectivity now coin
    had old e uses =
        let there : 1 ≤ total_keyed old rs = omega (
          arith,
          region_uses-le-keyed conn old rs.region1,
          region_uses-le-keyed conn old rs.region2,
        ) in
        let (_, g) = regions_give_back-GivenBack rs old connectivity now h.distinct there in
        record {
          start = (regions_give_back rs old connectivity now).0;
          excluding = some old;
          result = rw (e, get_different_addr);
          edge = record {
            one_each = λ c. omega (arith, g.users c, h.one_each c);
            distinct = λ b. rw (g.keys b) (h.distinct b);
            first = g.first h.first;
            second = g.second h.second;
          };
          free = omega (arith, g.users conn, h.one_each conn);
          others = λ c apart.
              omega (arith, g.users c, total_uses_exclusive old conn c rs apart, h.distinct old);
          new = λ a differ.
              omega (arith, total_uses_apart conn a old rs (λ same. ground arith), h.one_each conn);
        }

-- GetDifferentAddr keeps the edge well formed, also when a connectivity error makes a region switch
-- between its maps, and when it fails.
pub get_different_addr-IsEdge :
    (order : Order) (rs : Regions) (conn : ℕ) (connectivity : Bool) (now : ℕ) (coin : Bool)
    → Visits order
    → IsEdge rs
    → IsEdge (get_different_addr order rs conn connectivity now coin).0
get_different_addr-IsEdge order rs conn connectivity now coin visits h =
    let d = get_different_addr-Starts order rs conn connectivity now coin visits h in
    rw d.result (elim (get_unused_addr_cases order d.start d.excluding conn coin visits d.edge) [
      | inl (a, rs', e, g) ↦ rw e (Given-IsEdge d.start rs' a conn d.excluding d.edge d.free g)
      | inr (e, _) ↦ rw e d.edge
    ])
