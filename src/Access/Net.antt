-- ===== src/Access/Net.antt =====
-- net.IP and net.IPNet, as ipaccess/access.go and socks/request.go use them.

use cloudflared.Common.{
  ◌==◌, if◌then◌else◌, length, take, drop, Bool, true, ◌&&◌, ◌||◌, not, Option, none, some, [], ◌∷◌,
}
use cloudflared.Common.Bytes.{Bytes, bytes_eq}
use Prim.Native.Nat.{bit_and}

abbrev pub all_zero : Bytes → Bool
all_zero [] = true
all_zero (b ∷ bs) = (b == 0) && all_zero bs

-- IP.To4: the last four bytes of an IPv4 address in either form
unfoldable pub to4 : Bytes → Option Bytes
to4 ip =
    if length ip == 4
    then some ip
    else if (length ip == 16)
        && (all_zero (take 10 ip) && bytes_eq (take 2 (drop 10 ip)) (255 ∷ 255 ∷ []))
    then some (drop 12 ip)
    else none

-- net.IPNet
pub record IpNet : Type 0 where
  pub ip : Bytes
  pub mask : Bytes

-- The comparison of IPNet.Contains under the mask, of slices of one length
unfoldable pub masked_eq : Bytes → Bytes → Bytes → Bool
masked_eq (a ∷ as1) (m ∷ ms) (b ∷ bs) = (bit_and a m == bit_and b m) && masked_eq as1 ms bs
masked_eq _ _ _ = true

abbrev pub shortest : Bytes → Bytes
shortest ip = elim (to4 ip) [ none ↦ ip | some four ↦ four ]

-- networkNumberAndMask: the number and the mask, none for the pair of nils.
unfoldable pub number_and_mask : IpNet → Option (Bytes × Bytes)
number_and_mask n =
    let ip = shortest n.ip in
    if not ((length ip == 4) || (length ip == 16))
    then none
    else if length n.mask == length ip
    then some (ip, n.mask)
    else if (length n.mask == 16) && (length ip == 4)
    then some (ip, drop 12 n.mask)
    else none

-- IPNet.Contains
unfoldable pub contains : IpNet → Bytes → Bool
contains n ip = elim (number_and_mask n) [
  | none ↦ length ip == 0
  | some (number, mask) ↦
      (length (shortest ip) == length number) && masked_eq number mask (shortest ip)
]
