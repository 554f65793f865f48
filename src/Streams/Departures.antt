-- ===== src/Streams/Departures.antt =====
-- A step of ReadyList on a receive against the step of the queue.

use cloudflared.Common.{
  ◌==◌, if◌then◌else◌, ℕ, ◌+◌, ◌≤◌, ◌<◌, ◌≡◌, refl, ap, ◌∙◌, subst, false, Option, none, some, List,
  [], ◌∷◌, arith,
}
use cloudflared.Common.Map.{nat_eq, lookup, erase, lookup-erase}
use cloudflared.Streams.Ready.{
  update, ReadyList, dequeue, delete_key, receive, gave, advance, select_ready, select_idle,
  ready_step,
}
use cloudflared.Streams.Queue.{waits_in, give, open_step, queue_step}
use cloudflared.Streams.Represents.{
  occurs, ids_of, where_is, Chain, EndsAt, unborn, Represents, update_self, Chain-update,
}
use cloudflared.Streams.Signals.{Agrees, Chain-nil, Chain-cons, ready_step-select}
use mathlib.Core.Option.{some-injective}

not_there : (k : ℕ) (q : List ℕ) → occurs k q ≡ 0 → waits_in k q ≡ false
not_there k [] h = refl
not_there k (i ∷ q) h = ground (arith, not_there k q)

not_placed :
    (id : ℕ → ℕ) (k : ℕ) (bs : List ℕ) → occurs k (ids_of id bs) ≡ 0 → where_is id bs k ≡ none
not_placed id k [] h = refl
not_placed id k (b ∷ bs) h = ground (arith, not_placed id k bs)

occurs_once : (k n : ℕ) → (if k == k then 1 else 0) + n ≤ 1 → n ≡ 0
occurs_once k n h = ground arith

-- The map without the id of the first descriptor
where_is_rest :
    (id : ℕ → ℕ) (b k : ℕ) (bs : List ℕ)
    → occurs (id b) (ids_of id (b ∷ bs)) ≤ 1
    → (if id b == k then none else where_is id (b ∷ bs) k) ≡ where_is id bs k
where_is_rest id b k bs h =
    ground (arith, not_placed id (id b) bs (occurs_once (id b) (occurs (id b) (ids_of id bs)) h))

next-Chain :
    (next : ℕ → Option ℕ) (p : Option ℕ) (c : ℕ) (cs : List ℕ)
    → Chain next p (c ∷ cs)
    → Chain next (next c) cs
next-Chain next none c cs h = absurd h
next-Chain next (some a) c cs h = subst (λ z. Chain next (next z) cs) h.0 h.1

EndsAt-rest : (tail : Option ℕ) (c : ℕ) (cs : List ℕ) → EndsAt tail (c ∷ cs) → EndsAt tail cs
EndsAt-rest tail c [] e = tt
EndsAt-rest tail c (d ∷ cs) e = e

module _ (r : ReadyList) (b : ℕ) where
  -- The list after the first descriptor was given and deleted
  abbrev deleted : ReadyList
  deleted = record r { free = b ∷ r.free; descriptors = erase (r.store.id b) r.descriptors }

  delete_key-first : (bs : List ℕ) → Represents r (b ∷ bs) → delete_key r (r.store.id b) ≡ deleted
  unfolding delete_key
  delete_key-first bs rep = ground (arith, rep.mapped (r.store.id b))

  deleted_mapped :
      (bs : List ℕ)
      → Represents r (b ∷ bs)
      → (k : ℕ) → lookup k deleted.descriptors ≡ where_is r.store.id bs k
  deleted_mapped bs rep k =
      lookup-erase (r.store.id b) k r.descriptors
      ∙ (ap (λ (o : Option ℕ). if r.store.id b == k then none else o) (rep.mapped k)
          ∙ where_is_rest r.store.id b k bs (rep.once (r.store.id b)))

  deleted_clean :
      (bs : List ℕ)
      → Represents r (b ∷ bs)
      → (a : ℕ) → 0 < occurs a (b ∷ r.free) + unborn r a
      → r.store.next a ≡ none
  deleted_clean bs rep a h = ground (arith, rep.clean a, rep.alone b rep.first)

  emptied-Represents : Represents r (b ∷ []) → Represents (record deleted { first_ready = none }) []
  emptied-Represents rep = record {
    first = refl;
    alone = λ a e. cc;
    chain = rep.chain;
    ends = tt;
    unique = λ a. omega (arith, rep.unique a);
    clean = deleted_clean [] rep;
    mapped = deleted_mapped [] rep;
    once = λ k. omega arith;
    running = rep.running;
  }

  -- The list with the second descriptor in the first place
  abbrev moved_up : ℕ → ReadyList
  moved_up c = record deleted {
    head = r.store.next c;
    store = record r.store { next = update r.store.next c none };
    first_ready = some c;
  }

  moved_up-Represents :
      (c : ℕ) (cs : List ℕ) → Represents r (b ∷ c ∷ cs) → Represents (moved_up c) (c ∷ cs)
  moved_up-Represents c cs rep = record {
    first = refl;
    alone = λ a e. update_self r.store.next c none a (some-injective _ _ e);
    chain =
        Chain-update r.store.next c none (r.store.next c) cs
          (occurs_once c (occurs c cs) (omega (arith, rep.unique c)))
          (next-Chain r.store.next r.head c cs rep.chain);
    ends = EndsAt-rest r.tail c cs rep.ends;
    unique = λ a. omega (arith, rep.unique a);
    clean = λ a h. ground (arith, deleted_clean (c ∷ cs) rep a);
    mapped = deleted_mapped (c ∷ cs) rep;
    once = λ k. omega (arith, rep.once k);
    running = rep.running;
  }

  received :
      (bs : List ℕ)
      → Represents r (b ∷ bs)
      → (r' : ReadyList) → advance (r.store.id b) (dequeue deleted) ≡ some (r', gave (r.store.id b))
      → select_ready r b receive ≡ some (r', gave (r.store.id b))
  unfolding select_ready
  received bs rep r' e = ap (λ d. advance (r.store.id b) (dequeue d)) (delete_key-first bs rep) ∙ e

  receive_last : Represents r (b ∷ []) → Agrees r (b ∷ []) receive
  unfolding queue_step open_step give advance dequeue
  receive_last rep = (
    record deleted { first_ready = none },
    [],
    ready_step-select r b receive rep.running rep.first
        ∙ received [] rep (record deleted { first_ready = none })
            (ground (arith, Chain-nil r.store.next r.head rep.chain)),
    emptied-Represents rep,
    refl,
  )

  receive_more : (c : ℕ) (cs : List ℕ) → Represents r (b ∷ c ∷ cs) → Agrees r (b ∷ c ∷ cs) receive
  unfolding queue_step open_step give advance dequeue
  receive_more c cs rep = (
    moved_up c,
    c ∷ cs,
    ready_step-select r b receive rep.running rep.first
        ∙ received (c ∷ cs) rep (moved_up c)
            (ground (arith, Chain-cons r.store.next r.head c cs rep.chain)),
    moved_up-Represents c cs rep,
    refl,
  )

-- A receive is answered as the queue answers it: with its first id, or not at all.
pub receive-Agrees : (r : ReadyList) (bs : List ℕ) → Represents r bs → Agrees r bs receive
unfolding ready_step select_idle queue_step open_step give
receive-Agrees r [] rep = (r, [], ground (arith, rep.first, rep.running), rep, refl)
receive-Agrees r (b ∷ []) rep = receive_last r b rep
receive-Agrees r (b ∷ c ∷ cs) rep = receive_more r b c cs rep
