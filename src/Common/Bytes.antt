-- ===== src/Common/Bytes.antt =====
-- Go strings and byte slices as lists of byte values, with the tests of Go's `strings` package.
use Prim.Native.Char.{code}
use Prim.Native.String.{String}
use cloudflared.Common.{
  ℕ, suc, ◌≡◌, refl, sym, ap, ◌↔◌, Bool, true, false, ◌&&◌, List, [], ◌∷◌, ◌++◌, Option, none, some,
  arith, ◌==◌, length, drop, drop-append, if◌then◌else◌,
}
use cloudflared.Common.Map.{Eq}
use mathlib.Core.List.{reverse, reverse-reverse, reverse-append}
use mathlib.Core.Path.{◌≡⟨◌⟩◌, ◌∎}

abbrev pub Bytes : Type 0
Bytes = List ℕ

-- The bytes of a literal, which is ASCII.
abbrev pub str : String → Bytes
str String.[] = []
str (String.◌∷◌ c s) = code c ∷ str s

unfoldable pub bytes_eq : Bytes → Bytes → Bool
bytes_eq [] [] = true
bytes_eq [] (y ∷ ys) = false
bytes_eq (x ∷ xs) [] = false
bytes_eq (x ∷ xs) (y ∷ ys) = x == y && bytes_eq xs ys

eq_of_bytes_eq : (xs ys : Bytes) → bytes_eq xs ys ≡ true → xs ≡ ys
unfolding bytes_eq
eq_of_bytes_eq [] [] h = refl
eq_of_bytes_eq [] (y ∷ ys) h = cc
eq_of_bytes_eq (x ∷ xs) [] h = cc
eq_of_bytes_eq (x ∷ xs) (y ∷ ys) h = ground (arith, eq_of_bytes_eq xs ys)

pub bytes_eq_refl : (xs : Bytes) → bytes_eq xs xs ≡ true
unfolding bytes_eq
bytes_eq_refl [] = refl
bytes_eq_refl (x ∷ xs) = ground (arith, bytes_eq_refl xs)

pub bytes_eq_iff : (xs ys : Bytes) → (bytes_eq xs ys ≡ true) ↔ (xs ≡ ys)
bytes_eq_iff xs ys = (eq_of_bytes_eq xs ys, λ e. rw e (bytes_eq_refl ys))

instance abbrev pub bytes_eq_inst : Eq Bytes
bytes_eq_inst = record { beq = bytes_eq; beq_iff = bytes_eq_iff }

-- strings.HasPrefix(s, prefix)
unfoldable pub has_prefix : Bytes → Bytes → Bool
has_prefix s [] = true
has_prefix [] (p ∷ ps) = false
has_prefix (c ∷ s) (p ∷ ps) = c == p && has_prefix s ps

-- strings.TrimPrefix(s, prefix)
unfoldable pub trim_prefix : Bytes → Bytes → Bytes
trim_prefix s p = if has_prefix s p then drop (length p) s else s

pub has_prefix-append : (p s : Bytes) → has_prefix (p ++ s) p ≡ true
unfolding has_prefix
has_prefix-append [] s = refl
has_prefix-append (c ∷ p) s = ground (arith, has_prefix-append p s)

pub trim_prefix-append : (p s : Bytes) → trim_prefix (p ++ s) p ≡ s
unfolding trim_prefix
trim_prefix-append p s = rw (has_prefix-append p s) (drop-append p s)

append-drop_prefix : (s p : Bytes) → has_prefix s p ≡ true → p ++ drop (length p) s ≡ s
unfolding has_prefix
append-drop_prefix s [] h = refl
append-drop_prefix [] (c ∷ p) h = cc
append-drop_prefix (x ∷ s) (c ∷ p) h = ground (arith, append-drop_prefix s p)

-- A text with a prefix is the prefix and what trimming leaves.
pub append-trim_prefix : (s p : Bytes) → has_prefix s p ≡ true → p ++ trim_prefix s p ≡ s
unfolding trim_prefix
append-trim_prefix s p h = rw h (append-drop_prefix s p h)

-- strings.HasSuffix(s, suffix), read from the back
unfoldable pub has_suffix : Bytes → Bytes → Bool
has_suffix s suffix = has_prefix (reverse s) (reverse suffix)

-- strings.HasSuffix holds exactly of a text that ends in the suffix.
pub has_suffix_iff :
    (s suffix : Bytes) → (has_suffix s suffix ≡ true) ↔ ((front : Bytes) × (s ≡ front ++ suffix))
unfolding has_suffix
has_suffix_iff s suffix = (to, from)
  where
    rest : Bytes
    rest = drop (length (reverse suffix)) (reverse s)

    to : has_suffix s suffix ≡ true → (front : Bytes) × (s ≡ front ++ suffix)
    to h = (
      reverse rest,
      s
          ≡⟨ sym (reverse-reverse s) ⟩ reverse (reverse s)
          ≡⟨ ap reverse (sym (append-drop_prefix (reverse s) (reverse suffix) h)) ⟩
            reverse (reverse suffix ++ rest)
          ≡⟨ reverse-append (reverse suffix) rest ⟩ reverse rest ++ reverse (reverse suffix)
          ≡⟨ ap (◌++◌ (reverse rest)) (reverse-reverse suffix) ⟩ reverse rest ++ suffix ∎,
    )

    from : (front : Bytes) × (s ≡ front ++ suffix) → has_suffix s suffix ≡ true
    from (front, e) =
        rw (e, reverse-append front suffix) (has_prefix-append (reverse suffix) (reverse front))

-- strings.IndexByte(s, c): the first position of a byte
unfoldable pub index_byte : ℕ → Bytes → Option ℕ
index_byte c [] = none
index_byte c (x ∷ s) =
    if x == c then some 0 else elim (index_byte c s) [ none ↦ none | some i ↦ some (suc i) ]

-- strings.LastIndexByte(s, c): the last position of a byte
unfoldable pub last_index : ℕ → Bytes → Option ℕ
last_index c [] = none
last_index c (x ∷ s) = elim (last_index c s) [
  | none ↦ if x == c then some 0 else none
  | some i ↦ some (suc i)
]
