-- ===== src/Common/Tally.antt =====
-- How often a number stands in a list, and among the keys and the values of a map.
use cloudflared.Common.{
  ◌==◌, if◌then◌else◌, ℕ, ◌+◌, ◌≤◌, ◌≡◌, refl, List, [], ◌∷◌, ◌++◌, none, some, arith,
}
use cloudflared.Common.Map.{nat_eq, lookup, insert, erase}

abbrev pub times : ℕ → List ℕ → ℕ
times s [] = 0
times s (t ∷ ts) = (if s == t then 1 else 0) + times s ts

abbrev pub keys : List (ℕ × ℕ) → List ℕ
keys [] = []
keys ((id, s) ∷ m) = id ∷ keys m

abbrev pub values : List (ℕ × ℕ) → List ℕ
values [] = []
values ((id, s) ∷ m) = s ∷ values m

pub times-append : (s : ℕ) (ts us : List ℕ) → times s (ts ++ us) ≡ times s ts + times s us
times-append s [] us = omega arith
times-append s (t ∷ ts) us = omega (arith, times-append s ts us)

pub times-insert :
    (s id v : ℕ) (m : List (ℕ × ℕ))
    → times s (values (insert id v m)) ≤ (if s == v then 1 else 0) + times s (values m)
unfolding insert
times-insert s id v [] = omega arith
times-insert s id v ((j, w) ∷ m) = ground (arith, times-insert s id v m)

erase_le : (s id : ℕ) (m : List (ℕ × ℕ)) → times s (values (erase id m)) ≤ times s (values m)
unfolding erase
erase_le s id [] = omega arith
erase_le s id ((j, w) ∷ m) = ground (arith, erase_le s id m)

-- The value that is taken out leaves the map.
pub times-erase :
    (s id t : ℕ) (m : List (ℕ × ℕ))
    → lookup id m ≡ some t
    → (if s == t then 1 else 0) + times s (values (erase id m)) ≤ times s (values m)
unfolding lookup erase
times-erase s id t [] e = cc
times-erase s id t ((j, w) ∷ m) e = ground (arith, times-erase s id t m, erase_le s id m)

pub keys-erase :
    (k id : ℕ) (m : List (ℕ × ℕ))
    → times k (keys (erase id m)) ≡ (if k == id then 0 else times k (keys m))
unfolding erase
keys-erase k id [] = ground arith
keys-erase k id ((j, w) ∷ m) = ground (arith, keys-erase k id m)

pub lookup-none : (id : ℕ) (m : List (ℕ × ℕ)) → lookup id m ≡ none → times id (keys m) ≡ 0
unfolding lookup
lookup-none id [] e = refl
lookup-none id ((j, w) ∷ m) e = ground (arith, lookup-none id m)

pub insert_new :
    (s id v : ℕ) (m : List (ℕ × ℕ))
    → times id (keys m) ≡ 0
    → times s (values (insert id v m)) ≡ (if s == v then 1 else 0) + times s (values m)
unfolding insert
insert_new s id v [] e = omega arith
insert_new s id v ((j, w) ∷ m) e = ground (arith, insert_new s id v m)

pub keys-insert :
    (k id v : ℕ) (m : List (ℕ × ℕ))
    → times id (keys m) ≡ 0
    → times k (keys (insert id v m)) ≡ (if k == id then 1 else 0) + times k (keys m)
unfolding insert
keys-insert k id v [] e = omega arith
keys-insert k id v ((j, w) ∷ m) e = ground (arith, keys-insert k id v m)

erase_absent :
    (s id : ℕ) (m : List (ℕ × ℕ))
    → times id (keys m) ≡ 0
    → times s (values (erase id m)) ≡ times s (values m)
unfolding erase
erase_absent s id [] e = refl
erase_absent s id ((j, w) ∷ m) e = ground (arith, erase_absent s id m)

pub erase_one :
    (s id t : ℕ) (m : List (ℕ × ℕ))
    → lookup id m ≡ some t
    → times id (keys m) ≤ 1
    → (if s == t then 1 else 0) + times s (values (erase id m)) ≡ times s (values m)
unfolding lookup erase
erase_one s id t [] e h = cc
erase_one s id t ((j, w) ∷ m) e h = ground (arith, erase_one s id t m, erase_absent s id m)
