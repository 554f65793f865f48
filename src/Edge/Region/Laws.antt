-- ===== src/Edge/Region/Laws.antt =====
-- What the operations of one region do to its users, its keys and the choice of its active map.

use cloudflared.Common.{
  ◌==◌, if◌then◌else◌, Bool-cases, length, ℕ, ◌+◌, ◌≤◌, ◌<◌, ◌≡◌, refl, sym, ap, ◌∙◌, ◌↔◌, inl, inr,
  Bool, true, false, Option, none, some, [], ◌∷◌, arith,
}
use cloudflared.Common.Count.{count_p}
use cloudflared.Edge.AddrSet.{
  EdgeAddr, UsedBy, in_use, unused, AddrSet, Order, Visits, is_used_by, is_unused, differs,
  available_addrs, get_unused_ip, assign, use_addr, give_back, keyed, held, key_and,
  key_and-le-keyed,
}
use cloudflared.Edge.AddrSet.Laws.{
  addr_used_by-some, addr_used_by-none, get_unused_ip-some, get_unused_ip-none, use_addr-Taken,
  give_back_found, give_back_missing,
}
use cloudflared.Edge.Region.{
  Which, primary_set, secondary_set, Region, select, active_set, region_addr_used_by,
  region_available_addrs, use_in, after_connectivity_error, give_back_in, region_give_back,
}

abbrev pub region_held : ℕ → Region → ℕ
region_held conn r = held conn r.primary + held conn r.secondary

abbrev pub region_keyed : EdgeAddr → Region → ℕ
region_keyed a r = keyed a r.primary + keyed a r.secondary

abbrev pub region_uses : ℕ → EdgeAddr → Region → ℕ
region_uses conn a r =
    count_p (key_and a (is_used_by conn)) r.primary
    + count_p (key_and a (is_used_by conn)) r.secondary

-- The flag says which map is active, and the secondary map is active only if it has addresses.
pub record IsRegion (r : Region) : Type 0 where
  pub flag : r.active ≡ (if r.primary_is_active then primary_set else secondary_set)
  pub stocked : r.active ≡ secondary_set → 0 < length r.secondary

pub region_addr_used_by-some :
    (order : Order) (r : Region) (conn : ℕ) (a : EdgeAddr)
    → Visits order
    → region_addr_used_by order r conn ≡ some a
    → 1 ≤ region_uses conn a r
unfolding region_addr_used_by
region_addr_used_by-some order r conn a visits e = ground (
  arith,
  addr_used_by-some order r.primary conn a visits,
  addr_used_by-some order r.secondary conn a visits,
)

pub region_addr_used_by-none :
    (order : Order) (r : Region) (conn : ℕ)
    → Visits order
    → (region_addr_used_by order r conn ≡ none) ↔ (region_held conn r ≡ 0)
unfolding region_addr_used_by
region_addr_used_by-none order r conn visits = ground (
  arith,
  addr_used_by-none order r.primary conn visits,
  addr_used_by-none order r.secondary conn visits,
)

length-assign-pos : (s : AddrSet) (a : EdgeAddr) (u : UsedBy) → 0 < length (assign s a u)
unfolding assign
length-assign-pos [] a u = omega arith
length-assign-pos ((b, w) ∷ s) a u = ground arith

length-give_back-pos : (s : AddrSet) (a : EdgeAddr) → 0 < length s → 0 < length (give_back s a).0
unfolding give_back
length-give_back-pos s a h = ground (arith, length-assign-pos s a unused)

-- What AssignAnyAddress does when it gives an address.
pub record Assigned (r r' : Region) (a : EdgeAddr) (conn : ℕ) (excluding : Option EdgeAddr)
    : Type 0 where
  pub users : (c : ℕ) → region_held c r' ≡ region_held c r + (if conn == c then 1 else 0)
  pub keys : (b : EdgeAddr) → region_keyed b r' ≡ region_keyed b r
  pub fewer : region_available_addrs r' + 1 ≡ region_available_addrs r
  pub other : differs excluding a ≡ true
  pub ours : 1 ≤ region_keyed a r
  pub mine : 1 ≤ region_uses conn a r'
  pub whole : IsRegion r → IsRegion r'

taken_in :
    (w : Which) (r : Region) (a : EdgeAddr) (conn : ℕ)
    → ((b : EdgeAddr) → region_keyed b r ≤ 1)
    → 1 ≤ count_p (key_and a is_unused) (select w r.primary r.secondary)
    → let r' = use_in w r a conn in
      ((c : ℕ) → region_held c r' ≡ region_held c r + (if conn == c then 1 else 0))
      × ((b : EdgeAddr) → region_keyed b r' ≡ region_keyed b r)
      × (available_addrs (select w r'.primary r'.secondary) + 1
          ≡ available_addrs (select w r.primary r.secondary))
      × (1 ≤ region_keyed a r)
      × (1 ≤ region_uses conn a r')
      × (r'.active ≡ r.active)
      × (r'.primary_is_active ≡ r.primary_is_active)
      × (0 < length r.secondary → 0 < length r'.secondary)
taken_in primary_set r a conn unique free =
    let small : keyed a r.primary ≤ 1 = omega (arith, unique a) in
    let t = use_addr-Taken r.primary a conn small free in
    (
      (λ c. omega (arith, t.users c)),
      (λ b. omega (arith, t.keys b)),
      t.fewer,
      omega (arith, key_and-le-keyed a is_unused r.primary),
      omega (arith, t.mine),
      refl,
      refl,
      λ h. h,
    )
taken_in secondary_set r a conn unique free =
    let small : keyed a r.secondary ≤ 1 = omega (arith, unique a) in
    let t = use_addr-Taken r.secondary a conn small free in
    (
      (λ c. omega (arith, t.users c)),
      (λ b. omega (arith, t.keys b)),
      t.fewer,
      omega (arith, key_and-le-keyed a is_unused r.secondary),
      omega (arith, t.mine),
      refl,
      refl,
      λ h. unfold use_addr in length-assign-pos r.secondary a (in_use conn),
    )

pub assign_any_address-some :
    (order : Order) (r : Region) (conn : ℕ) (excluding : Option EdgeAddr) (a : EdgeAddr)
    → Visits order
    → ((b : EdgeAddr) → region_keyed b r ≤ 1)
    → get_unused_ip order (active_set r) excluding ≡ some a
    → Assigned r (use_in r.active r a conn) a conn excluding
unfolding region_available_addrs
assign_any_address-some order r conn excluding a visits unique e =
    let (free, other) = get_unused_ip-some order (active_set r) excluding a visits e in
    let (users, keys, fewer, ours, mine, same, flag, stock) =
      taken_in r.active r a conn unique free in
    let r' : Region = use_in r.active r a conn in
    record {
      users = users;
      keys = keys;
      fewer = ap (λ w. available_addrs (select w r'.primary r'.secondary) + 1) same ∙ fewer;
      other = other;
      ours = ours;
      mine = mine;
      whole = λ h. record {
        flag = same ∙ h.flag ∙ ap (λ b. if b then primary_set else secondary_set) (sym flag);
        stocked = λ e'. stock (h.stocked (sym same ∙ e'));
      };
    }

pub assign_any_address-none :
    (order : Order) (r : Region) (conn : ℕ)
    → Visits order
    → get_unused_ip order (active_set r) none ≡ none
    → region_available_addrs r ≡ 0
unfolding region_available_addrs
assign_any_address-none order r conn visits e = (get_unused_ip-none order (active_set r) visits).0 e

pub after_connectivity_error-maps :
    (r : Region) (a : EdgeAddr) (now : ℕ)
    → ((after_connectivity_error r a now).primary ≡ r.primary)
      × ((after_connectivity_error r a now).secondary ≡ r.secondary)
      × (IsRegion r → IsRegion (after_connectivity_error r a now))
unfolding after_connectivity_error
after_connectivity_error-maps r a now = (ground arith, ground arith, λ h. ground arith)

-- What GiveBack does when the address is in the region.
pub record Returned (r r' : Region) (a : EdgeAddr) : Type 0 where
  pub users : (c : ℕ) → region_held c r' + region_uses c a r ≡ region_held c r
  pub ours : 1 ≤ region_keyed a r
  pub keys : (b : EdgeAddr) → region_keyed b r' ≡ region_keyed b r
  pub whole : IsRegion r → IsRegion r'

give_back_in-found :
    (r : Region) (a : EdgeAddr)
    → ((b : EdgeAddr) → region_keyed b r ≤ 1)
    → (give_back_in r a).1 ≡ true
    → Returned r (give_back_in r a).0 a
unfolding give_back_in
give_back_in-found r a unique found = elim (Bool-cases (give_back r.primary a).1) [
  | inl first ↦ rw first (in_primary first)
  | inr second ↦ rw second (in_secondary second (rw second at found))
]
  where
    in_primary :
        (give_back r.primary a).1 ≡ true
        → Returned r (record r { primary = (give_back r.primary a).0 }) a
    in_primary hit =
        let (here, users, keys) = give_back_found r.primary a (omega (arith, unique a)) hit in
        record {
          users =
              λ c. omega (arith, users c, unique a, key_and-le-keyed a (is_used_by c) r.secondary);
          ours = omega arith;
          keys = λ b. omega (arith, keys b);
          whole = λ h. record { flag = h.flag; stocked = h.stocked };
        }

    in_secondary :
        (give_back r.primary a).1 ≡ false
        → (give_back r.secondary a).1 ≡ true
        → Returned r (record r { secondary = (give_back r.secondary a).0 }) a
    in_secondary missing hit =
        let (away, _) = give_back_missing r.primary a missing in
        let (here, users, keys) = give_back_found r.secondary a (omega (arith, unique a)) hit in
        record {
          users = λ c. omega (arith, users c, key_and-le-keyed a (is_used_by c) r.primary);
          ours = omega arith;
          keys = λ b. omega (arith, keys b);
          whole = λ h. record {
            flag = h.flag;
            stocked = λ e. length-give_back-pos r.secondary a (h.stocked e);
          };
        }

after_connectivity_error-Returned :
    (r r' : Region) (a : EdgeAddr) (now : ℕ)
    → Returned r r' a
    → Returned r (after_connectivity_error r' a now) a
after_connectivity_error-Returned r r' a now h =
    let (p, s, whole) = after_connectivity_error-maps r' a now in
    record {
      users = λ c. omega (arith, ap (held c) p, ap (held c) s, h.users c);
      ours = h.ours;
      keys = λ b. omega (arith, ap (keyed b) p, ap (keyed b) s, h.keys b);
      whole = λ w. whole (h.whole w);
    }

pub region_give_back-found :
    (r : Region) (a : EdgeAddr) (connectivity : Bool) (now : ℕ)
    → ((b : EdgeAddr) → region_keyed b r ≤ 1)
    → (region_give_back r a connectivity now).1 ≡ true
    → Returned r (region_give_back r a connectivity now).0 a
unfolding region_give_back
region_give_back-found r a connectivity now unique found = elim (Bool-cases (give_back_in r a).1) [
  | inl hit ↦
      let back : Returned r (give_back_in r a).0 a = give_back_in-found r a unique hit in
      elim (Bool-cases connectivity) [
        | inl yes_error ↦
            rw (hit, yes_error)
              (after_connectivity_error-Returned r (give_back_in r a).0 a now back)
        | inr no_error ↦ rw (hit, no_error) back
      ]
  | inr miss ↦ ground arith
]

pub region_give_back-missing :
    (r : Region) (a : EdgeAddr) (connectivity : Bool) (now : ℕ)
    → (region_give_back r a connectivity now).1 ≡ false
    → ((region_give_back r a connectivity now).0 ≡ r) × (region_keyed a r ≡ 0)
unfolding region_give_back give_back_in
region_give_back-missing r a connectivity now missing =
    ground (arith, give_back_missing r.primary a, give_back_missing r.secondary a)
