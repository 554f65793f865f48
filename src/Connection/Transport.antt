-- ===== src/Connection/Transport.antt =====
-- connection/header.go: headers survive their way through one header.

-- What base64 gives is decoded again and has no delimiter in it.
use cloudflared.Common.{
  ◌==◌, Bool-cases, ℕ, ◌≡◌, refl, sym, ap, inl, inr, Option, none, some, List, [], ◌∷◌, ◌++◌, arith,
}
use cloudflared.Common.Bytes.{Bytes}
use cloudflared.Common.Tally.{times, times-append}
use cloudflared.Connection.Headers.{
  Encoding, write_header, write_values, write_headers, serialize_headers, split, header_of,
  deserialize_parts, and_headers, deserialize_pairs, deserialize_headers,
}

pub record IsPlain (enc : Encoding) : Type 0 where
  pub decodes : (x : Bytes) → enc.decode (enc.encode x) ≡ some x
  pub no_semicolon : (x : Bytes) → times 59 (enc.encode x) ≡ 0
  pub no_colon : (x : Bytes) → times 58 (enc.encode x) ≡ 0

abbrev pub named : Bytes → List Bytes → List (Bytes × Bytes)
named name [] = []
named name (v ∷ vs) = (name, v) ∷ named name vs

-- A header for each value of each name
abbrev pub all_headers : List (Bytes × List Bytes) → List (Bytes × Bytes)
all_headers [] = []
all_headers ((name, vs) ∷ hs) = named name vs ++ all_headers hs

append_nil : {A : Type 0} (xs : List A) → xs ++ [] ≡ xs
append_nil [] = refl
append_nil (x ∷ xs) = ap (◌∷◌ x) (append_nil xs)

append_assoc : {A : Type 0} (xs ys zs : List A) → (xs ++ ys) ++ zs ≡ xs ++ (ys ++ zs)
append_assoc [] ys zs = refl
append_assoc (x ∷ xs) ys zs = ap (◌∷◌ x) (append_assoc xs ys zs)

split-nonempty : (c : ℕ) (xs : Bytes) → (w : Bytes) × (ws : List Bytes) × (split c xs ≡ w ∷ ws)
unfolding split
split-nonempty c [] = ([], [], refl)
split-nonempty c (b ∷ bs) =
    let (w, ws, e) = split-nonempty c bs in
    elim (Bool-cases (b == c)) [
      | inl same ↦ ([], split c bs, rw same refl)
      | inr other ↦ (b ∷ w, ws, rw (other, e) refl)
    ]

split-append : (c : ℕ) (xs ys : Bytes) → split c (xs ++ c ∷ ys) ≡ split c xs ++ split c ys
unfolding split
split-append c [] ys = ground arith
split-append c (b ∷ bs) ys =
    let (w, ws, e) = split-nonempty c bs in
    let same = split-append c bs ys in ground (arith, e, same)

split_plain : (c : ℕ) (xs : Bytes) → times c xs ≡ 0 → split c xs ≡ xs ∷ []
unfolding split
split_plain c [] h = refl
split_plain c (b ∷ bs) h = ground (arith, split_plain c bs)

times-pair :
    (enc : Encoding) (plain : IsPlain enc) (name value : Bytes)
    → times 59 (enc.encode name ++ 58 ∷ enc.encode value) ≡ 0
times-pair enc plain name value = omega (
  arith,
  times-append 59 (enc.encode name) (58 ∷ enc.encode value),
  plain.no_semicolon name,
  plain.no_semicolon value,
)

pair_parts :
    (enc : Encoding) (plain : IsPlain enc) (name value : Bytes)
    → deserialize_parts enc (split 58 (enc.encode name ++ 58 ∷ enc.encode value))
      ≡ some (name, value)
unfolding deserialize_parts header_of
pair_parts enc plain name value =
    rw
      (
        split-append 58 (enc.encode name) (enc.encode value),
        split_plain 58 (enc.encode name) (plain.no_colon name),
        split_plain 58 (enc.encode value) (plain.no_colon value),
        plain.decodes name,
        plain.decodes value,
      )
      refl

nonempty : (xs ys : Bytes) (b : ℕ) → (c : ℕ) × (zs : Bytes) × (xs ++ b ∷ ys ≡ c ∷ zs)
nonempty [] ys b = (b, ys, refl)
nonempty (x ∷ xs) ys b = (x, xs ++ b ∷ ys, refl)

one_pair :
    (enc : Encoding) (p : Bytes) (h : Bytes × Bytes) (c : ℕ) (zs : Bytes)
    → p ≡ c ∷ zs
    → deserialize_parts enc (split 58 p) ≡ some h
    → deserialize_pairs enc (p ∷ []) ≡ some (h ∷ [])
unfolding deserialize_pairs and_headers
one_pair enc [] h c zs e parts = cc
one_pair enc (b ∷ p) h c zs e parts = rw parts refl

pair_read :
    (enc : Encoding) (plain : IsPlain enc) (name value : Bytes)
    → deserialize_pairs enc (split 59 (enc.encode name ++ 58 ∷ enc.encode value))
      ≡ some ((name, value) ∷ [])
pair_read enc plain name value =
    let (c, zs, e) = nonempty (enc.encode name) (enc.encode value) 58 in
    rw (split_plain 59 (enc.encode name ++ 58 ∷ enc.encode value) (times-pair enc plain name value))
      (one_pair enc _ (name, value) c zs e (pair_parts enc plain name value))

and_headers-some :
    (h : Option (Bytes × Bytes)) (hs : Option (List (Bytes × Bytes))) (ks : List (Bytes × Bytes))
    → and_headers h hs ≡ some ks
    → (j : Bytes × Bytes) × (js : List (Bytes × Bytes)) × (h ≡ some j)
      × (hs ≡ some js)
      × (ks ≡ j ∷ js)
unfolding and_headers
and_headers-some none hs ks e = cc
and_headers-some (some h) none ks e = cc
and_headers-some (some h) (some hs) ks e = (h, hs, refl, refl, cc)

and_all :
    {h : Option (Bytes × Bytes)} {qs : Option (List (Bytes × Bytes))} {j : Bytes × Bytes}
    {js hs : List (Bytes × Bytes)} (ks : List (Bytes × Bytes))
    → h ≡ some j
    → qs ≡ some (js ++ ks)
    → hs ≡ j ∷ js
    → and_headers h qs ≡ some (hs ++ ks)
unfolding and_headers
and_all ks e f g = rw (e, f, g) refl

pairs-append :
    (enc : Encoding) (ps qs : List Bytes) (hs ks : List (Bytes × Bytes))
    → deserialize_pairs enc ps ≡ some hs
    → deserialize_pairs enc qs ≡ some ks
    → deserialize_pairs enc (ps ++ qs) ≡ some (hs ++ ks)
unfolding deserialize_pairs
pairs-append enc [] qs hs ks e f = cc
pairs-append enc ([] ∷ ps) qs hs ks e f = pairs-append enc ps qs hs ks e f
pairs-append enc ((b ∷ p) ∷ ps) qs hs ks e f =
    let (j, js, one, rest, all) =
      and_headers-some (deserialize_parts enc (split 58 (b ∷ p))) (deserialize_pairs enc ps) hs e in
    and_all ks one (pairs-append enc ps qs js ks rest f) all

written :
    (enc : Encoding) (plain : IsPlain enc) (buf name value : Bytes) (hs : List (Bytes × Bytes))
    → deserialize_headers enc buf ≡ some hs
    → deserialize_headers enc (write_header enc buf name value) ≡ some (hs ++ (name, value) ∷ [])
unfolding write_header
written enc plain [] name value hs e =
    let none_yet : [] ≡ hs = unfold split deserialize_pairs in cc in
    rw (sym none_yet) (pair_read enc plain name value)
written enc plain (b ∷ buf) name value hs e =
    rw (split-append 59 (b ∷ buf) (enc.encode name ++ 58 ∷ enc.encode value))
      (pairs-append enc _ _ hs ((name, value) ∷ []) e (pair_read enc plain name value))

values_written :
    (enc : Encoding) (plain : IsPlain enc) (vs : List Bytes) (buf name : Bytes)
    (hs : List (Bytes × Bytes))
    → deserialize_headers enc buf ≡ some hs
    → deserialize_headers enc (write_values enc buf name vs) ≡ some (hs ++ named name vs)
values_written enc plain [] buf name hs e = rw (append_nil hs) e
values_written enc plain (v ∷ vs) buf name hs e =
    rw (sym (append_assoc hs ((name, v) ∷ []) (named name vs))) (
      values_written enc plain vs (write_header enc buf name v) name (hs ++ (name, v) ∷ [])
        (written enc plain buf name v hs e))

headers_written :
    (enc : Encoding) (plain : IsPlain enc) (hs : List (Bytes × List Bytes)) (buf : Bytes)
    (ks : List (Bytes × Bytes))
    → deserialize_headers enc buf ≡ some ks
    → deserialize_headers enc (write_headers enc buf hs) ≡ some (ks ++ all_headers hs)
headers_written enc plain [] buf ks e = rw (append_nil ks) e
headers_written enc plain ((name, vs) ∷ hs) buf ks e =
    rw (sym (append_assoc ks (named name vs) (all_headers hs))) (
      headers_written enc plain hs (write_values enc buf name vs) (ks ++ named name vs)
        (values_written enc plain vs buf name ks e))

-- Where the encoding is decoded again and writes neither delimiter, DeserializeHeaders gives back
-- what SerializeHeaders was given, in any order of the map: a header for each value of each name,
-- empty ones and those with delimiters in them included.
pub deserialize_headers-serialize_headers :
    (enc : Encoding) (plain : IsPlain enc) (hs : List (Bytes × List Bytes))
    → deserialize_headers enc (serialize_headers enc hs) ≡ some (all_headers hs)
deserialize_headers-serialize_headers enc plain hs =
    headers_written enc plain hs [] [] (unfold split deserialize_pairs in refl)
