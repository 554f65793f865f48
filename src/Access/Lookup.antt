-- ===== src/Access/Lookup.antt =====
-- The binary search of a policy's ports against a plain search of the configured ports.

use cloudflared.Common.{
  ltb, Bool-cases, Option-cases, length, get_elem?, All, All-get_elem?, ℕ, zero, suc, ◌+◌, ◌/◌, ◌≤◌,
  ◌<◌, ◌≡◌, refl, sym, ◌∙◌, subst, ◌⊎◌, inl, inr, true, false, ◌||◌, none, some, List, [], ◌∷◌,
  arith,
}
use cloudflared.Common.Int.{ℤ, leb_ℤ}
use cloudflared.Access.Ports.{
  eq_ℤ, insert_sorted, sort_ints, at_least, search, search_ints, is_at, has_port, elem,
}
use mathlib.Core.Option.{some-injective}

abbrev Below : List ℤ → ℤ → ℕ → Type 0
Below a x n = (k : ℕ) (y : ℤ) → get_elem? a k ≡ some y → k < n → leb_ℤ x y ≡ false

abbrev Above : List ℤ → ℤ → ℕ → Type 0
Above a x n = (k : ℕ) (y : ℤ) → get_elem? a k ≡ some y → n ≤ k → leb_ℤ x y ≡ true

-- No number is above a later one.
abbrev IsSorted : List ℤ → Type 0
IsSorted [] = Unit {0}
IsSorted (x ∷ xs) = All (λ y. leb_ℤ x y ≡ true) xs × IsSorted xs

All-insert_sorted :
    (z x : ℤ) (ys : List ℤ)
    → leb_ℤ z x ≡ true
    → All (λ y. leb_ℤ z y ≡ true) ys
    → All (λ y. leb_ℤ z y ≡ true) (insert_sorted x ys)
unfolding insert_sorted
All-insert_sorted z x [] h hs = (h, tt)
All-insert_sorted z x (y ∷ ys) h hs = elim (Bool-cases (leb_ℤ x y)) [
  | inl le ↦ rw le (h, hs)
  | inr gt ↦ rw gt (hs.0, All-insert_sorted z x ys h hs.1)
]

All-trans :
    (x y : ℤ) (ys : List ℤ)
    → leb_ℤ x y ≡ true
    → All (λ z. leb_ℤ y z ≡ true) ys
    → All (λ z. leb_ℤ x z ≡ true) ys
All-trans x y [] h hs = tt
All-trans x y (z ∷ ys) h hs = (ground (arith, hs.0), All-trans x y ys h hs.1)

insert_sorted-IsSorted : (x : ℤ) (ys : List ℤ) → IsSorted ys → IsSorted (insert_sorted x ys)
unfolding insert_sorted
insert_sorted-IsSorted x [] s = (tt, tt)
insert_sorted-IsSorted x (y ∷ ys) s = elim (Bool-cases (leb_ℤ x y)) [
  | inl le ↦ rw le ((le, All-trans x y ys le s.0), s)
  | inr gt ↦
      rw gt (All-insert_sorted y x ys (ground (arith, gt)) s.0, insert_sorted-IsSorted x ys s.1)
]

sort_ints-IsSorted : (xs : List ℤ) → IsSorted (sort_ints xs)
unfolding sort_ints
sort_ints-IsSorted [] = tt
sort_ints-IsSorted (x ∷ xs) = insert_sorted-IsSorted x (sort_ints xs) (sort_ints-IsSorted xs)

IsSorted-get_elem? :
    (a : List ℤ) (k l : ℕ) (y z : ℤ)
    → IsSorted a
    → get_elem? a k ≡ some y
    → get_elem? a l ≡ some z
    → k ≤ l
    → leb_ℤ y z ≡ true
IsSorted-get_elem? [] k l y z s e f h = cc
IsSorted-get_elem? (x ∷ a) zero zero y z s e f h = ground arith
IsSorted-get_elem? (x ∷ a) zero (suc l) y z s e f h =
    subst (λ w. leb_ℤ w z ≡ true) (some-injective _ _ e) (All-get_elem? _ a l z s.0 f)
IsSorted-get_elem? (x ∷ a) (suc k) zero y z s e f h = absurd (omega arith)
IsSorted-get_elem? (x ∷ a) (suc k) (suc l) y z s e f h =
    IsSorted-get_elem? a k l y z s.1 e f (omega arith)

get_elem?_past : (a : List ℤ) (h k : ℕ) → get_elem? a h ≡ none → h ≤ k → get_elem? a k ≡ none
get_elem?_past [] h k e le = refl
get_elem?_past (x ∷ a) zero k e le = cc
get_elem?_past (x ∷ a) (suc h) zero e le = absurd (omega arith)
get_elem?_past (x ∷ a) (suc h) (suc k) e le = get_elem?_past a h k e (omega arith)

-- One round of the search, to the right and to the left.
Below-next : (a : List ℤ) (x : ℤ) (h : ℕ) → IsSorted a → at_least a x h ≡ false → Below a x (h + 1)
Below-next a x h s miss k y e lt = elim (Option-cases (get_elem? a h)) [
  | inl out ↦ absurd (ground (arith, out))
  | inr (w, at) ↦ ground (arith, at, e, IsSorted-get_elem? a k h y w s e at (omega arith))
]

Above-next : (a : List ℤ) (x : ℤ) (h : ℕ) → IsSorted a → at_least a x h ≡ true → Above a x h
Above-next a x h s hit k y e le = elim (Option-cases (get_elem? a h)) [
  | inl out ↦ absurd (ground (arith, get_elem?_past a h k out le))
  | inr (w, at) ↦ ground (arith, at, e, IsSorted-get_elem? a h k w y s at e le)
]

module _ (a : List ℤ) (x : ℤ) where
  abbrev Splits : ℕ → Type 0
  Splits r = Below a x r × Above a x r

  search-cases :
      (fuel i j : ℕ)
      → ((ltb i j ≡ true)
          × (at_least a x ((i + j) / 2) ≡ true)
          × (search (suc fuel) a x i j ≡ search fuel a x i ((i + j) / 2)))
        ⊎ (((ltb i j ≡ true)
              × (at_least a x ((i + j) / 2) ≡ false)
              × (search (suc fuel) a x i j ≡ search fuel a x ((i + j) / 2 + 1) j))
            ⊎ ((j ≤ i) × (search (suc fuel) a x i j ≡ i)))
  unfolding search
  search-cases fuel i j = ground arith

  -- With j - i rounds of fuel the search ends where the numbers stop being below x.
  search-Splits :
      (fuel i j : ℕ)
      → IsSorted a
      → j ≤ i + fuel
      → i ≤ j
      → Below a x i
      → Above a x j
      → Splits (search fuel a x i j)
  search-Splits zero i j s f le lo hi =
      let e : j ≡ i = omega arith in unfold search in (lo, subst (λ n. Above a x n) e hi)
  search-Splits (suc fuel) i j s f le lo hi = elim (search-cases fuel i j) [
    | inl (more, hit, e) ↦ subst Splits (sym e) (
        search-Splits fuel i ((i + j) / 2) s (ground (arith, more)) (ground (arith, more)) lo
          (Above-next a x ((i + j) / 2) s hit))
    | inr (inl (more, miss, e)) ↦ subst Splits (sym e) (
        search-Splits fuel ((i + j) / 2 + 1) j s (ground (arith, more)) (ground (arith, more))
          (Below-next a x ((i + j) / 2) s miss) hi)
    | inr (inr (done, e)) ↦
        let same : j ≡ i = omega arith in
        subst Splits (sym e) (lo, subst (λ n. Above a x n) same hi)
  ]

get_elem?_out : (a : List ℤ) (k : ℕ) → length a ≤ k → get_elem? a k ≡ none
get_elem?_out [] k h = refl
get_elem?_out (x ∷ a) zero h = absurd (omega arith)
get_elem?_out (x ∷ a) (suc k) h = get_elem?_out a k (omega arith)

search_ints_splits :
    (a : List ℤ) (x : ℤ) → IsSorted a → Below a x (search_ints a x) × Above a x (search_ints a x)
unfolding search_ints
search_ints_splits a x s =
    search-Splits a x (length a) 0 (length a) s (omega arith) (omega arith)
      (λ k y e lt. absurd (omega arith)) (λ k y e le. absurd (ground (arith, get_elem?_out a k le)))

elem_position :
    (x : ℤ) (a : List ℤ)
    → elem x a ≡ true
    → (k : ℕ) × (y : ℤ) × (get_elem? a k ≡ some y) × (eq_ℤ y x ≡ true)
unfolding elem
elem_position x [] h = cc
elem_position x (y ∷ a) h = elim (Bool-cases (eq_ℤ y x)) [
  | inl same ↦ (0, y, refl, same)
  | inr other ↦ let (k, z, e, same) = elem_position x a (ground arith) in (suc k, z, e, same)
]

elem_found :
    (x y : ℤ) (a : List ℤ) (k : ℕ) → get_elem? a k ≡ some y → eq_ℤ y x ≡ true → elem x a ≡ true
unfolding elem
elem_found x y [] k e same = cc
elem_found x y (z ∷ a) zero e same = ground arith
elem_found x y (z ∷ a) (suc k) e same = ground (arith, elem_found x y a k e same)

-- The number at the end of the search is x when x is among them.
found_at :
    (a : List ℤ) (x : ℤ) (r : ℕ)
    → IsSorted a
    → Below a x r
    → Above a x r
    → elem x a ≡ true
    → is_at a x r ≡ true
found_at a x r s lo hi h =
    let (k, y, e, same) = elem_position x a h in
    elim (Bool-cases (ltb k r)) [
      | inl before ↦ absurd (ground (arith, lo k y e))
      | inr after ↦ elim (Option-cases (get_elem? a r)) [
        | inl out ↦ absurd (ground (arith, get_elem?_past a r k out))
        | inr (z, here) ↦
            ground (arith, here, hi r z here (omega arith), IsSorted-get_elem? a r k z y s here e)
      ]
    ]

is_at-elem : (a : List ℤ) (x : ℤ) (r : ℕ) → is_at a x r ≡ true → elem x a ≡ true
is_at-elem a x r h = elim (Option-cases (get_elem? a r)) [
  | inl out ↦ absurd (ground (arith, out))
  | inr (y, here) ↦ elem_found x y a r here (ground (arith, here))
]

has_port_sorted : (a : List ℤ) (x : ℤ) → IsSorted a → has_port a x ≡ elem x a
unfolding has_port
has_port_sorted a x s =
    let (lo, hi) = search_ints_splits a x s in
    elim (Bool-cases (elem x a)) [
      | inl there ↦ rw there (found_at a x (search_ints a x) s lo hi there)
      | inr gone ↦ elim (Bool-cases (is_at a x (search_ints a x))) [
        | inl at ↦ absurd (ground (arith, gone, is_at-elem a x (search_ints a x) at))
        | inr off ↦ rw (off, gone) refl
      ]
    ]

elem-insert_sorted : (z x : ℤ) (ys : List ℤ) → elem z (insert_sorted x ys) ≡ (eq_ℤ x z || elem z ys)
unfolding elem insert_sorted
elem-insert_sorted z x [] = refl
elem-insert_sorted z x (y ∷ ys) = ground (arith, elem-insert_sorted z x ys)

elem-sort_ints : (z : ℤ) (xs : List ℤ) → elem z (sort_ints xs) ≡ elem z xs
unfolding elem sort_ints
elem-sort_ints z [] = refl
elem-sort_ints z (x ∷ xs) =
    ground (arith, elem-sort_ints z xs, elem-insert_sorted z x (sort_ints xs))

-- The binary search finds exactly the ports that were configured.
pub has_port-sort_ints : (ports : List ℤ) (x : ℤ) → has_port (sort_ints ports) x ≡ elem x ports
has_port-sort_ints ports x =
    has_port_sorted (sort_ints ports) x (sort_ints-IsSorted ports) ∙ elem-sort_ints x ports
