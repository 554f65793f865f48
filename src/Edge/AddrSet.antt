-- ===== src/Edge/AddrSet.antt =====
-- edgediscovery/allregions/address.go and usedby.go: AddrSet, a map from pointers to addresses.
-- An address is known by the identity of its pointer. Go visits the entries of a map in an order of
-- its own: that order is an argument, a function from the map to the list of entries visited.
pub mod Laws
use cloudflared.Common.{
  ◌==◌, if◌then◌else◌, ℕ, ◌+◌, ◌≤◌, ◌≡◌, ◌↔◌, Bool, true, false, ◌&&◌, not, Option, none, some,
  List, [], ◌∷◌, arith,
}
use cloudflared.Common.Count.{count_p, find_p, count_p_mono}

pub data IpVersion : Type 0 where
  v4 v6 : IpVersion

pub record EdgeAddr : Type 0 where
  pub id : ℕ
  pub ip_version : IpVersion

pub record UsedBy : Type 0 where
  pub conn_id : ℕ
  pub used : Bool

abbrev pub in_use : ℕ → UsedBy
in_use conn = record { conn_id = conn; used = true }

abbrev pub unused : UsedBy
unused = record { conn_id = 0; used = false }

abbrev pub AddrSet : Type 0
AddrSet = List (EdgeAddr × UsedBy)

abbrev pub Order : Type 0
Order = AddrSet → AddrSet

-- Each entry is visited exactly as often as the map holds it.
abbrev pub Visits : Order → Type 0
Visits order = (p : EdgeAddr × UsedBy → Bool) (s : AddrSet) → count_p p (order s) ≡ count_p p s

-- The tests on an entry.
abbrev pub has_key : EdgeAddr → EdgeAddr × UsedBy → Bool
has_key a (b, u) = b.id == a.id

abbrev pub is_used_by : ℕ → EdgeAddr × UsedBy → Bool
is_used_by conn (b, u) = u.used && u.conn_id == conn

abbrev pub is_unused : EdgeAddr × UsedBy → Bool
is_unused (b, u) = not u.used

-- `addr != excluding`, where `excluding` may be nil.
abbrev pub differs : Option EdgeAddr → EdgeAddr → Bool
differs none a = true
differs (some b) a = not (a.id == b.id)

abbrev pub is_free_for : Option EdgeAddr → EdgeAddr × UsedBy → Bool
is_free_for excluding (a, u) = not u.used && differs excluding a

abbrev pub address_of : Option (EdgeAddr × UsedBy) → Option EdgeAddr
address_of none = none
address_of (some (a, u)) = some a

unfoldable pub addr_used_by : Order → AddrSet → ℕ → Option EdgeAddr
addr_used_by order s conn = address_of (find_p (is_used_by conn) (order s))

unfoldable pub available_addrs : AddrSet → ℕ
available_addrs s = count_p is_unused s

unfoldable pub get_unused_ip : Order → AddrSet → Option EdgeAddr → Option EdgeAddr
get_unused_ip order s excluding = address_of (find_p (is_free_for excluding) (order s))

abbrev pub any_entry : EdgeAddr × UsedBy → Bool
any_entry e = true

unfoldable pub get_any_address : Order → AddrSet → Option EdgeAddr
get_any_address order s = address_of (find_p any_entry (order s))

-- `a[addr] = u`
unfoldable pub assign : AddrSet → EdgeAddr → UsedBy → AddrSet
assign [] a u = (a, u) ∷ []
assign ((b, w) ∷ s) a u = if b.id == a.id then (b, u) ∷ s else (b, w) ∷ assign s a u

-- Use, of an address that is not nil
unfoldable pub use_addr : AddrSet → EdgeAddr → ℕ → AddrSet
use_addr s a conn = assign s a (in_use conn)

-- `_, ok := a[addr]`
unfoldable pub has_addr : AddrSet → EdgeAddr → Bool
has_addr [] a = false
has_addr ((b, u) ∷ s) a = if b.id == a.id then true else has_addr s a

unfoldable pub give_back : AddrSet → EdgeAddr → AddrSet × Bool
unfolding has_addr assign
give_back s a = if has_addr s a then (assign s a unused, true) else (s, false)

-- The counts through which the laws below speak.
abbrev pub keyed : EdgeAddr → AddrSet → ℕ
keyed a s = count_p (has_key a) s

abbrev pub held : ℕ → AddrSet → ℕ
held conn s = count_p (is_used_by conn) s

abbrev pub key_and : EdgeAddr → (EdgeAddr × UsedBy → Bool) → EdgeAddr × UsedBy → Bool
key_and a p e = has_key a e && p e

pub key_and-le-keyed :
    (a : EdgeAddr) (p : EdgeAddr × UsedBy → Bool) (s : AddrSet)
    → count_p (key_and a p) s ≤ keyed a s
key_and-le-keyed a p s = count_p_mono (key_and a p) (has_key a) s (λ e h. ground arith)

pub has_addr_iff : (s : AddrSet) (a : EdgeAddr) → (has_addr s a ≡ true) ↔ (1 ≤ keyed a s)
unfolding has_addr
has_addr_iff [] a = (cc, λ h. absurd (omega arith))
has_addr_iff ((b, u) ∷ s) a = ground (arith, has_addr_iff s a)

-- Assigning to a key that is there once moves one entry from its old user to the new one.
pub assign-count :
    (s : AddrSet) (a : EdgeAddr) (u : UsedBy) (p : UsedBy → Bool)
    → keyed a s ≡ 1
    → count_p (λ e. p e.1) (assign s a u) + count_p (key_and a (λ e. p e.1)) s
      ≡ count_p (λ e. p e.1) s + (if p u then 1 else 0)
unfolding assign
assign-count [] a u p h = absurd (omega arith)
assign-count ((b, w) ∷ s) a u p h =
    ground (arith, key_and-le-keyed a (λ e. p e.1) s, assign-count s a u p)

pub assign-keyed :
    (s : AddrSet) (a b : EdgeAddr) (u : UsedBy) → keyed a s ≡ 1 → keyed b (assign s a u) ≡ keyed b s
unfolding assign
assign-keyed [] a b u h = absurd (omega arith)
assign-keyed ((c, w) ∷ s) a b u h = ground (arith, assign-keyed s a b u)
