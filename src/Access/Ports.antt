-- ===== src/Access/Ports.antt =====
-- sort.Ints and sort.SearchInts, as ipaccess/access.go uses them on the ports of a rule.

use cloudflared.Common.{
  ltb, if◌then◌else◌, length, get_elem?, ℕ, zero, suc, ◌+◌, ◌/◌, Bool, true, false, ◌&&◌, ◌||◌,
  none, some, List, [], ◌∷◌,
}
use cloudflared.Common.Int.{ℤ, leb_ℤ}

abbrev pub eq_ℤ : ℤ → ℤ → Bool
eq_ℤ a b = leb_ℤ a b && leb_ℤ b a

unfoldable pub insert_sorted : ℤ → List ℤ → List ℤ
insert_sorted x [] = x ∷ []
insert_sorted x (y ∷ ys) =
    let rest = insert_sorted x ys in if leb_ℤ x y then x ∷ y ∷ ys else y ∷ rest

-- sort.Ints: the sorted list of the same numbers
unfoldable pub sort_ints : List ℤ → List ℤ
sort_ints [] = []
sort_ints (x ∷ xs) = insert_sorted x (sort_ints xs)

-- `a[h] >= x`, in range
abbrev pub at_least : List ℤ → ℤ → ℕ → Bool
at_least a x h = elim (get_elem? a h) [ none ↦ true | some y ↦ leb_ℤ x y ]

-- The loop of sort.Search from i to j, with fuel for its rounds
unfoldable pub search : ℕ → List ℤ → ℤ → ℕ → ℕ → ℕ
search zero a x i j = i
search (suc fuel) a x i j =
    let h = (i + j) / 2 in
    let right = search fuel a x (h + 1) j in
    let left = search fuel a x i h in
    elim (ltb i j) [ false ↦ i | true ↦ elim (at_least a x h) [ true ↦ left | false ↦ right ] ]

-- sort.SearchInts: j - i falls in every round, so that the length is fuel enough.
unfoldable pub search_ints : List ℤ → ℤ → ℕ
search_ints a x = search (length a) a x 0 (length a)

-- `pos < len(a) && a[pos] == x`
abbrev pub is_at : List ℤ → ℤ → ℕ → Bool
is_at a x h = elim (get_elem? a h) [ none ↦ false | some y ↦ eq_ℤ y x ]

unfoldable pub has_port : List ℤ → ℤ → Bool
has_port a x = is_at a x (search_ints a x)

-- Whether x is among the numbers, by going through them.
unfoldable pub elem : ℤ → List ℤ → Bool
elem x [] = false
elem x (y ∷ ys) = eq_ℤ y x || elem x ys
