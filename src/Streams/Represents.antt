-- ===== src/Streams/Represents.antt =====
-- How the linked list, the map and the free list hold a queue of ids.

use cloudflared.Common.{
  ltb, ◌==◌, if◌then◌else◌, is_some, ℕ, ◌+◌, ◌≤◌, ◌<◌, ◌≡◌, refl, sym, ap, ◌∙◌, subst, ◌≢◌, false,
  Option, none, some, List, [], ◌∷◌, ◌++◌, arith,
}
use cloudflared.Streams.Queue.{waits_in}
use cloudflared.Common.Map.{nat_eq, lookup}
use cloudflared.Streams.Ready.{update, ReadyList}

abbrev pub occurs : ℕ → List ℕ → ℕ
occurs a [] = 0
occurs a (b ∷ bs) = (if a == b then 1 else 0) + occurs a bs

abbrev pub ids_of : (ℕ → ℕ) → List ℕ → List ℕ
ids_of id [] = []
ids_of id (a ∷ bs) = id a ∷ ids_of id bs

abbrev pub where_is : (ℕ → ℕ) → List ℕ → ℕ → Option ℕ
where_is id [] key = none
where_is id (a ∷ bs) key = if id a == key then some a else where_is id bs key

-- From p the links go through the addresses and end.
abbrev pub Chain : (ℕ → Option ℕ) → Option ℕ → List ℕ → Type 0
Chain next none [] = Unit {0}
Chain next none (b ∷ bs) = ⊥
Chain next (some a) [] = ⊥
Chain next (some a) (b ∷ bs) = (a ≡ b) × Chain next (next a) bs

abbrev pub first_of : List ℕ → Option ℕ
first_of [] = none
first_of (a ∷ bs) = some a

abbrev pub rest_of : List ℕ → List ℕ
rest_of [] = []
rest_of (a ∷ bs) = bs

-- The last link is the tail, if there is one.
abbrev pub EndsAt : Option ℕ → List ℕ → Type 0
EndsAt t [] = Unit {0}
EndsAt t (a ∷ []) = t ≡ some a
EndsAt t (a ∷ b ∷ bs) = EndsAt t (b ∷ bs)

abbrev pub unborn : ReadyList → ℕ → ℕ
unborn r a = if ltb a r.fresh then 0 else 1

-- The addresses of the descriptors that wait, the first one first.
pub record Represents (r : ReadyList) (bs : List ℕ) : Type 0 where
  pub first : r.first_ready ≡ first_of bs
  pub alone : (a : ℕ) → r.first_ready ≡ some a → r.store.next a ≡ none
  pub chain : Chain r.store.next r.head (rest_of bs)
  pub ends : EndsAt r.tail (rest_of bs)
  pub unique : (a : ℕ) → occurs a bs + occurs a r.free + unborn r a ≤ 1
  pub clean : (a : ℕ) → 0 < occurs a r.free + unborn r a → r.store.next a ≡ none
  pub mapped : (key : ℕ) → lookup key r.descriptors ≡ where_is r.store.id bs key
  pub once : (key : ℕ) → occurs key (ids_of r.store.id bs) ≤ 1
  pub running : r.done ≡ false

pub update_other : {A : Type 0} (f : ℕ → A) (a : ℕ) (v : A) (b : ℕ) → a ≢ b → update f a v b ≡ f b
update_other f a v b h = ground arith

pub update_self : {A : Type 0} (f : ℕ → A) (a : ℕ) (v : A) (b : ℕ) → a ≡ b → update f a v b ≡ v
update_self f a v b h = ground arith

pub Chain-update :
    (next : ℕ → Option ℕ) (x : ℕ) (v p : Option ℕ) (bs : List ℕ)
    → occurs x bs ≡ 0
    → Chain next p bs
    → Chain (update next x v) p bs
Chain-update next x v none [] h c = tt
Chain-update next x v none (b ∷ bs) h c = c
Chain-update next x v (some a) [] h c = c
Chain-update next x v (some a) (b ∷ bs) h c =
    let other : x ≢ a = λ e. ground arith in
    (
      c.0,
      subst (λ q. Chain (update next x v) q bs) (sym (update_other next x v a other))
          (Chain-update next x v (next a) bs (ground arith) c.1),
    )

pub EndsAt-occurs :
    (tail : Option ℕ) (t b : ℕ) (bs : List ℕ)
    → EndsAt tail (b ∷ bs)
    → tail ≡ some t
    → 1 ≤ occurs t (b ∷ bs)
EndsAt-occurs tail t b [] e w = ground (arith, e)
EndsAt-occurs tail t b (c ∷ bs) e w = ground (arith, EndsAt-occurs tail t c bs e w)

pub counted_apart : (t b n : ℕ) → 1 ≤ n → (if t == b then 1 else 0) + n ≤ 1 → t ≢ b
counted_apart t b n h k q = ground arith

-- A link to a new last element
pub Chain-append :
    (next : ℕ → Option ℕ) (x t : ℕ) (p tail : Option ℕ) (b : ℕ) (bs : List ℕ)
    → Chain next p (b ∷ bs)
    → EndsAt tail (b ∷ bs)
    → tail ≡ some t
    → next x ≡ none
    → occurs x (b ∷ bs) ≡ 0
    → ((a : ℕ) → occurs a (b ∷ bs) ≤ 1)
    → Chain (update next t (some x)) p (b ∷ (bs ++ x ∷ []))
Chain-append next x t none tail b bs c e w clean out once = absurd c
Chain-append next x t (some a) tail b [] c e w clean out once =
    let here : t ≡ a = ground (arith, c.0) in
    let other : t ≢ x = λ q. ground (arith, c.0) in
    (
      c.0,
      subst (λ q. Chain (update next t (some x)) q (x ∷ []))
          (sym (update_self next t (some x) a here))
          (
            refl,
            subst (λ q. Chain (update next t (some x)) q [])
                (sym (update_other next t (some x) x other ∙ clean)) tt,
          ),
    )
Chain-append next x t (some a) tail b (d ∷ bs) c e w clean out once =
    let other : t ≢ a = λ q.
      counted_apart t b (occurs t (d ∷ bs)) (EndsAt-occurs tail t d bs e w) (once t) (q ∙ c.0) in
    (
      c.0,
      subst (λ q. Chain (update next t (some x)) q (d ∷ (bs ++ x ∷ [])))
          (sym (update_other next t (some x) a other))
          (Chain-append next x t (next a) tail d bs c.1 e w clean (ground arith)
            (λ z. ground (arith, once z))),
    )

pub EndsAt-append : (x : ℕ) (bs : List ℕ) → EndsAt (some x) (bs ++ x ∷ [])
EndsAt-append x [] = refl
EndsAt-append x (b ∷ []) = refl
EndsAt-append x (b ∷ c ∷ bs) = EndsAt-append x (c ∷ bs)

pub occurs-append : (a : ℕ) (bs cs : List ℕ) → occurs a (bs ++ cs) ≡ occurs a bs + occurs a cs
occurs-append a [] cs = omega arith
occurs-append a (b ∷ bs) cs = omega (arith, occurs-append a bs cs)

-- A new id for an address that does not wait
pub ids_of-update :
    (id : ℕ → ℕ) (x key : ℕ) (bs : List ℕ)
    → occurs x bs ≡ 0
    → ids_of (update id x key) bs ≡ ids_of id bs
ids_of-update id x key [] h = refl
ids_of-update id x key (b ∷ bs) h = ground (arith, ids_of-update id x key bs)

pub ids_of-append :
    (id : ℕ → ℕ) (bs cs : List ℕ) → ids_of id (bs ++ cs) ≡ ids_of id bs ++ ids_of id cs
ids_of-append id [] cs = refl
ids_of-append id (b ∷ bs) cs = ap (◌∷◌ (id b)) (ids_of-append id bs cs)

pub where_is-update :
    (id : ℕ → ℕ) (x key k : ℕ) (bs : List ℕ)
    → occurs x bs ≡ 0
    → where_is (update id x key) bs k ≡ where_is id bs k
where_is-update id x key k [] h = refl
where_is-update id x key k (b ∷ bs) h = ground (arith, where_is-update id x key k bs)

pub where_is-append :
    (id : ℕ → ℕ) (x k : ℕ) (bs : List ℕ)
    → where_is id (bs ++ x ∷ []) k
      ≡ elim (where_is id bs k) [ some a ↦ some a | none ↦ if id x == k then some x else none ]
where_is-append id x k [] = refl
where_is-append id x k (b ∷ bs) = ground (arith, where_is-append id x k bs)

-- The map has the id exactly when the queue has it.
pub where_is_iff :
    (id : ℕ → ℕ) (k : ℕ) (bs : List ℕ) → is_some (where_is id bs k) ≡ waits_in k (ids_of id bs)
where_is_iff id k [] = refl
where_is_iff id k (b ∷ bs) = ground (arith, where_is_iff id k bs)

pub waits_in-occurs : (k : ℕ) (q : List ℕ) → waits_in k q ≡ false → occurs k q ≡ 0
waits_in-occurs k [] h = refl
waits_in-occurs k (i ∷ q) h = ground (arith, waits_in-occurs k q)
