-- ===== src/Streams/Arrivals.antt =====
-- A signal puts a new id at the end of the queue that a ReadyList holds.

use cloudflared.Common.{
  ltb, ◌==◌, if◌then◌else◌, ℕ, ◌+◌, ◌≤◌, ◌<◌, ◌≡◌, refl, sym, ap, ◌∙◌, subst, ◌≢◌, false, Option,
  none, some, List, [], ◌∷◌, ◌++◌, arith,
}
use cloudflared.Common.Map.{nat_eq, lookup, insert, lookup-insert}
use cloudflared.Streams.Ready.{update, ReadyList, obtain}
use cloudflared.Streams.Queue.{waits_in}
use cloudflared.Streams.Represents.{
  occurs, ids_of, where_is, Chain, unborn, Represents, update_other, EndsAt-occurs, counted_apart,
  Chain-append, EndsAt-append, occurs-append, ids_of-update, ids_of-append, where_is-update,
  where_is-append, waits_in-occurs,
}
use mathlib.Core.Option.{some-injective}

-- What a descriptor is worth that obtain takes, with the free list and the store's end after it
pub record IsSpare (r : ReadyList) (bs fs : List ℕ) (n x : ℕ) : Type 0 where
  pub blank : r.store.next x ≡ none
  pub outside : occurs x bs ≡ 0
  pub left :
      (a : ℕ)
      → (if a == x then 1 else 0) + occurs a fs + (if ltb a n then 0 else 1)
        ≡ occurs a r.free + unborn r a

unborn_next :
    (n a : ℕ)
    → (if a == n then 1 else 0) + (if ltb a (n + 1) then 0 else 1) ≡ (if ltb a n then 0 else 1)
unborn_next n a = ground arith

pub obtain-IsSpare :
    (r : ReadyList) (bs xs : List ℕ)
    → Represents r bs
    → r.free ≡ xs
    → (fs : List ℕ) × (n : ℕ) × (x : ℕ) × (obtain r xs ≡ (record r { free = fs; fresh = n }, x))
      × IsSpare r bs fs n x
unfolding obtain
obtain-IsSpare r bs [] rep e = (
  r.free,
  r.fresh + 1,
  r.fresh,
  refl,
  record {
    blank = rep.clean r.fresh (ground arith);
    outside = ground (arith, rep.unique r.fresh);
    left = λ a. omega (arith, unborn_next r.fresh a);
  },
)
obtain-IsSpare r bs (x ∷ xs) rep e = (
  xs,
  r.fresh,
  x,
  refl,
  record {
    blank = rep.clean x (ground (arith, e));
    outside = ground (arith, e, rep.unique x);
    left = λ a. ground (arith, e);
  },
)

where_is_added :
    (id : ℕ → ℕ) (x key k : ℕ) (cs : List ℕ)
    → occurs x cs ≡ 0
    → where_is id cs key ≡ none
    → where_is (update id x key) (cs ++ x ∷ []) k ≡ (if key == k then some x else where_is id cs k)
where_is_added id x key k cs out absent =
    ground (arith, where_is-append (update id x key) x k cs, where_is-update id x key k cs)

pub ids_of_added :
    (id : ℕ → ℕ) (x key : ℕ) (cs : List ℕ)
    → occurs x cs ≡ 0
    → ids_of (update id x key) (cs ++ x ∷ []) ≡ ids_of id cs ++ key ∷ []
ids_of_added id x key cs out =
    ground (arith, ids_of-append (update id x key) cs (x ∷ []), ids_of-update id x key cs)

occurs_added :
    (k key : ℕ) (q : List ℕ)
    → occurs k q ≤ 1
    → waits_in key q ≡ false
    → occurs k (q ++ key ∷ []) ≤ 1
occurs_added k key q h new = ground (arith, occurs-append k q (key ∷ []), waits_in-occurs key q)

module _ (r : ReadyList) (fs : List ℕ) (n x key : ℕ) where
  -- The list after `place` has given the descriptor its id
  abbrev pub placed : ReadyList
  placed = record r {
    free = fs;
    fresh = n;
    store = record r.store { id = update r.store.id x key };
    descriptors = insert key x r.descriptors;
  }

  pub first-Represents :
      Represents r []
      → IsSpare r [] fs n x
      → Represents (record placed { first_ready = some x }) (x ∷ [])
  first-Represents rep spare = record {
    first = refl;
    alone = λ a e. subst (λ z. r.store.next z ≡ none) (some-injective _ _ e) spare.blank;
    chain = rep.chain;
    ends = tt;
    unique = λ a. omega (arith, spare.left a, rep.unique a);
    clean = λ a h. rep.clean a (omega (arith, spare.left a));
    mapped = λ k. ground (arith, lookup-insert key k x r.descriptors, rep.mapped k);
    once = λ k. ground arith;
    running = rep.running;
  }

  -- The fields that an addition behind the first descriptor leaves as they are
  module _ (b : ℕ) (bs : List ℕ) (rep : Represents r (b ∷ bs))
      (spare : IsSpare r (b ∷ bs) fs n x) where
    more_unique :
        (a : ℕ) → occurs a (b ∷ (bs ++ x ∷ [])) + occurs a fs + (if ltb a n then 0 else 1) ≤ 1
    more_unique a = omega (arith, spare.left a, rep.unique a, occurs-append a bs (x ∷ []))

    more_mapped :
        where_is r.store.id (b ∷ bs) key ≡ none
        → (k : ℕ) → lookup k placed.descriptors ≡ where_is placed.store.id (b ∷ (bs ++ x ∷ [])) k
    more_mapped absent k =
        lookup-insert key k x r.descriptors
        ∙ (ap (λ (o : Option ℕ). if key == k then some x else o) (rep.mapped k)
            ∙ sym (where_is_added r.store.id x key k (b ∷ bs) spare.outside absent))

    more_once :
        waits_in key (ids_of r.store.id (b ∷ bs)) ≡ false
        → (k : ℕ) → occurs k (ids_of placed.store.id (b ∷ (bs ++ x ∷ []))) ≤ 1
    more_once absent k =
        subst (λ q. occurs k q ≤ 1) (sym (ids_of_added r.store.id x key (b ∷ bs) spare.outside))
          (occurs_added k key (ids_of r.store.id (b ∷ bs)) (rep.once k) absent)

    -- Into an empty queue
    pub second-Represents :
        bs ≡ []
        → waits_in key (ids_of r.store.id (b ∷ bs)) ≡ false
        → where_is r.store.id (b ∷ bs) key ≡ none
        → Represents (record placed { head = some x; tail = some x }) (b ∷ (bs ++ x ∷ []))
    second-Represents none_else new absent = record {
      first = rep.first;
      alone = rep.alone;
      chain =
          subst (λ cs. Chain r.store.next (some x) (cs ++ x ∷ [])) (sym none_else)
            (refl, subst (λ q. Chain r.store.next q []) (sym spare.blank) tt);
      ends = EndsAt-append x bs;
      unique = more_unique;
      clean = λ a h. rep.clean a (omega (arith, spare.left a));
      mapped = more_mapped absent;
      once = more_once new;
      running = rep.running;
    }

  -- Behind the tail
  module _ (b c t : ℕ) (cs : List ℕ) (rep : Represents r (b ∷ c ∷ cs))
      (spare : IsSpare r (b ∷ c ∷ cs) fs n x) (at_t : r.tail ≡ some t) where
    tail_waits : 1 ≤ occurs t (c ∷ cs)
    tail_waits = EndsAt-occurs r.tail t c cs rep.ends at_t

    tail_apart : (a : ℕ) → r.first_ready ≡ some a → t ≢ a
    tail_apart a e q =
        let same : b ≡ a = some-injective _ _ (sym rep.first ∙ e) in
        counted_apart t b (occurs t (c ∷ cs)) tail_waits (omega (arith, rep.unique t))
          (q ∙ sym same)

    tail_not_spare : (a : ℕ) → 0 < occurs a fs + (if ltb a n then 0 else 1) → t ≢ a
    tail_not_spare a h q =
        let twice : 2 ≤ occurs t (b ∷ c ∷ cs) + occurs t r.free + unborn r t =
          subst (λ z. 2 ≤ occurs t (b ∷ c ∷ cs) + occurs z r.free + unborn r z) (sym q)
            (omega (arith, spare.left a, tail_waits)) in
        omega (arith, rep.unique t)

    pub last-Represents :
        waits_in key (ids_of r.store.id (b ∷ c ∷ cs)) ≡ false
        → where_is r.store.id (b ∷ c ∷ cs) key ≡ none
        → Represents
            (record placed {
              store = record r.store {
                id = update r.store.id x key;
                next = update r.store.next t (some x);
              };
              tail = some x;
            })
            (b ∷ c ∷ (cs ++ x ∷ []))
    last-Represents new absent = record {
      first = rep.first;
      alone = λ a e. update_other r.store.next t (some x) a (tail_apart a e) ∙ rep.alone a e;
      chain =
          Chain-append r.store.next x t r.head r.tail c cs rep.chain rep.ends at_t spare.blank
            (ground (arith, spare.outside)) (λ a. omega (arith, rep.unique a));
      ends = EndsAt-append x (c ∷ cs);
      unique = more_unique b (c ∷ cs) rep spare;
      clean = λ a h.
          update_other r.store.next t (some x) a (tail_not_spare a h)
          ∙ rep.clean a (omega (arith, spare.left a));
      mapped = more_mapped b (c ∷ cs) rep spare absent;
      once = more_once b (c ∷ cs) rep spare new;
      running = rep.running;
    }
