-- ===== src/Edge/AddrSet/Laws.antt =====
-- What the operations of AddrSet do to the users and the keys of the map.

use cloudflared.Common.{
  ◌==◌, if◌then◌else◌, Bool-cases, ℕ, ◌+◌, ◌≤◌, ◌≡◌, refl, sym, ap, ◌∙◌, ◌≢◌, ◌↔◌, inl, inr, true,
  false, ◌&&◌, not, Option, none, some, [], ◌∷◌, arith,
}
use cloudflared.Common.Count.{count_p, find_p, find_p-some, count_p_found, find_p-none}
use cloudflared.Edge.AddrSet.{
  EdgeAddr, UsedBy, in_use, unused, AddrSet, Order, Visits, is_used_by, is_unused, differs,
  is_free_for, address_of, addr_used_by, available_addrs, get_unused_ip, assign, use_addr, has_addr,
  give_back, keyed, held, key_and, key_and-le-keyed, has_addr_iff, assign-count, assign-keyed,
}

count_disjoint :
    (a : EdgeAddr) (conn : ℕ) (s : AddrSet)
    → count_p (key_and a (is_used_by conn)) s + count_p (key_and a is_unused) s ≤ keyed a s
count_disjoint a conn [] = omega arith
count_disjoint a conn ((b, u) ∷ s) = ground (arith, count_disjoint a conn s)

address_of-some :
    (o : Option (EdgeAddr × UsedBy)) (a : EdgeAddr)
    → address_of o ≡ some a
    → (u : UsedBy) × (o ≡ some (a, u))
address_of-some none a e = cc
address_of-some (some (b, u)) a e = (u, ground arith)

address_of-none : (o : Option (EdgeAddr × UsedBy)) → address_of o ≡ none → o ≡ none
address_of-none none e = refl
address_of-none (some (b, u)) e = cc

pub addr_used_by-some :
    (order : Order) (s : AddrSet) (conn : ℕ) (a : EdgeAddr)
    → Visits order
    → addr_used_by order s conn ≡ some a
    → 1 ≤ count_p (key_and a (is_used_by conn)) s
unfolding addr_used_by
addr_used_by-some order s conn a visits e =
    let (u, found) = address_of-some (find_p (is_used_by conn) (order s)) a e in
    let used = find_p-some (is_used_by conn) (order s) (a, u) found in
    rw (← visits (key_and a (is_used_by conn)) s) (
      count_p_found (is_used_by conn) (key_and a (is_used_by conn)) (order s) (a, u) found
        (ground arith))

pub addr_used_by-none :
    (order : Order) (s : AddrSet) (conn : ℕ)
    → Visits order
    → (addr_used_by order s conn ≡ none) ↔ (held conn s ≡ 0)
unfolding addr_used_by
addr_used_by-none order s conn visits = (
  (λ e. sym (visits (is_used_by conn) s) ∙ (find_p-none _ (order s)).0 (address_of-none _ e)),
  λ e. ap address_of ((find_p-none _ (order s)).1 (visits (is_used_by conn) s ∙ e)),
)

-- What GetUnusedIP gives is in the map, unused and not the one excluded.
pub get_unused_ip-some :
    (order : Order) (s : AddrSet) (excluding : Option EdgeAddr) (a : EdgeAddr)
    → Visits order
    → get_unused_ip order s excluding ≡ some a
    → (1 ≤ count_p (key_and a is_unused) s) × (differs excluding a ≡ true)
unfolding get_unused_ip
get_unused_ip-some order s excluding a visits e =
    let (u, found) = address_of-some (find_p (is_free_for excluding) (order s)) a e in
    let free = find_p-some (is_free_for excluding) (order s) (a, u) found in
    (
      rw (← visits (key_and a is_unused) s) (
          count_p_found (is_free_for excluding) (key_and a is_unused) (order s) (a, u) found
            (ground arith)),
      ground arith,
    )

pub get_unused_ip-none :
    (order : Order) (s : AddrSet)
    → Visits order
    → (get_unused_ip order s none ≡ none) ↔ (available_addrs s ≡ 0)
unfolding get_unused_ip available_addrs
get_unused_ip-none order s visits = (
  (λ e.
      sym (free-unused s)
      ∙ sym (visits (is_free_for none) s)
      ∙ (find_p-none _ (order s)).0 (address_of-none _ e)),
  λ e.
      ap address_of ((find_p-none _ (order s)).1 (visits (is_free_for none) s ∙ free-unused s ∙ e)),
)
  where
    free-unused : (s : AddrSet) → count_p (is_free_for none) s ≡ count_p is_unused s
    free-unused [] = refl
    free-unused ((b, u) ∷ s) = ground (arith, free-unused s)

-- Taking an unused address.
pub record Taken (s : AddrSet) (a : EdgeAddr) (conn : ℕ) : Type 0 where
  pub users : (c : ℕ) → held c (use_addr s a conn) ≡ held c s + (if conn == c then 1 else 0)
  pub keys : (b : EdgeAddr) → keyed b (use_addr s a conn) ≡ keyed b s
  pub fewer : available_addrs (use_addr s a conn) + 1 ≡ available_addrs s
  pub mine : 1 ≤ count_p (key_and a (is_used_by conn)) (use_addr s a conn)

assign-mine :
    (s : AddrSet) (a : EdgeAddr) (conn : ℕ)
    → 1 ≤ count_p (key_and a (is_used_by conn)) (assign s a (in_use conn))
unfolding assign
assign-mine [] a conn = ground arith
assign-mine ((b, w) ∷ s) a conn = ground (arith, assign-mine s a conn)

pub use_addr-Taken :
    (s : AddrSet) (a : EdgeAddr) (conn : ℕ)
    → keyed a s ≤ 1
    → 1 ≤ count_p (key_and a is_unused) s
    → Taken s a conn
unfolding use_addr available_addrs
use_addr-Taken s a conn unique free =
    let here : keyed a s ≡ 1 = omega (arith, key_and-le-keyed a is_unused s) in
    record {
      users = λ c. omega (
        arith,
        assign-count s a (in_use conn) (λ u. u.used && u.conn_id == c) here,
        count_disjoint a c s,
      );
      keys = λ b. assign-keyed s a b (in_use conn) here;
      fewer = omega (
        arith,
        assign-count s a (in_use conn) (λ u. not u.used) here,
        key_and-le-keyed a is_unused s,
      );
      mine = assign-mine s a conn;
    }

-- Giving an address back.
pub give_back_found :
    (s : AddrSet) (a : EdgeAddr)
    → keyed a s ≤ 1
    → (give_back s a).1 ≡ true
    → (keyed a s ≡ 1)
      × ((c : ℕ) → held c (give_back s a).0 + count_p (key_and a (is_used_by c)) s ≡ held c s)
      × ((b : EdgeAddr) → keyed b (give_back s a).0 ≡ keyed b s)
unfolding give_back
give_back_found s a unique found = elim (Bool-cases (has_addr s a)) [
  | inl there ↦
      let here : keyed a s ≡ 1 = omega (arith, (has_addr_iff s a).0 there) in
      rw there (
        here,
        (λ c. omega (arith, assign-count s a unused (λ u. u.used && u.conn_id == c) here)),
        λ b. assign-keyed s a b unused here,
      )
  | inr missing ↦ ground arith
]

pub give_back_missing :
    (s : AddrSet) (a : EdgeAddr)
    → (give_back s a).1 ≡ false
    → (keyed a s ≡ 0) × ((give_back s a).0 ≡ s)
unfolding give_back
give_back_missing s a missing = ground (arith, has_addr_iff s a)

-- Two addresses in use by one connection are one, or count twice.
pub uses_apart :
    (conn : ℕ) (a b : EdgeAddr) (s : AddrSet)
    → a.id ≢ b.id
    → count_p (key_and a (is_used_by conn)) s + count_p (key_and b (is_used_by conn)) s
      ≤ held conn s
uses_apart conn a b [] apart = omega arith
uses_apart conn a b ((c, u) ∷ s) apart = ground (arith, uses_apart conn a b s apart)

-- An address is in use by one connection at a time.
pub uses_exclusive :
    (a : EdgeAddr) (conn c : ℕ) (s : AddrSet)
    → c ≢ conn
    → count_p (key_and a (is_used_by conn)) s + count_p (key_and a (is_used_by c)) s ≤ keyed a s
uses_exclusive a conn c [] apart = omega arith
uses_exclusive a conn c ((b, u) ∷ s) apart = ground (arith, uses_exclusive a conn c s apart)
