-- ===== src/Streams/Signals.antt =====
-- A step of ReadyList on a signal against the step of the queue.

use cloudflared.Common.{
  Bool-cases, is_some, ℕ, ◌≡◌, refl, ap, ◌∙◌, inl, inr, true, false, Option, none, some, List, [],
  ◌∷◌, ◌++◌, arith,
}
use cloudflared.Common.Map.{nat_eq, lookup}
use cloudflared.Streams.Ready.{
  update, ReadyList, append_at, enqueue, obtain, place, set_if_missing, Event, signal, taken,
  start_with, taken_with, enqueued, select_ready, select_idle, ready_step,
}
use cloudflared.Streams.Queue.{waits_in, Queue, open_step, queue_step}
use cloudflared.Streams.Represents.{ids_of, where_is, Chain, EndsAt, Represents, where_is_iff}
use cloudflared.Streams.Arrivals.{
  IsSpare, obtain-IsSpare, ids_of_added, placed, first-Represents, second-Represents,
  last-Represents,
}

abbrev pub queue_of : ReadyList → List ℕ → Queue
queue_of r bs = record { ids = ids_of r.store.id bs; over = false }

-- The list answers an event as its queue does, and holds the queue's next state after it.
abbrev pub Agrees : ReadyList → List ℕ → Event → Type 0
Agrees r bs e =
    (r' : ReadyList) × (cs : List ℕ) × (ready_step r e
      ≡ some (r', (queue_step (queue_of r bs) e).1))
    × Represents r' cs
    × (queue_of r' cs ≡ (queue_step (queue_of r bs) e).0)

not_some : (o : Option ℕ) → is_some o ≡ false → o ≡ none
not_some none h = refl
not_some (some a) h = cc

some_of : (o : Option ℕ) → is_some o ≡ true → (a : ℕ) × (o ≡ some a)
some_of none h = cc
some_of (some a) h = (a, refl)

enqueue_empty :
    (p : ReadyList) (x : ℕ)
    → p.store.next x ≡ none
    → p.head ≡ none
    → enqueue p x ≡ some (record p { head = some x; tail = some x })
unfolding enqueue
enqueue_empty p x blank no_head = ground (arith, blank, no_head)

enqueue_last :
    (p : ReadyList) (x h t : ℕ)
    → p.store.next x ≡ none
    → p.head ≡ some h
    → p.tail ≡ some t
    → enqueue p x
      ≡ some (record p {
        store = record p.store { next = update p.store.next t (some x) };
        tail = some x;
      })
unfolding enqueue append_at
enqueue_last p x h t blank at_h at_t = ground (arith, blank, at_h, at_t)

pub Chain-nil : (next : ℕ → Option ℕ) (p : Option ℕ) → Chain next p [] → p ≡ none
Chain-nil next none c = refl
Chain-nil next (some a) c = absurd c

pub Chain-cons :
    (next : ℕ → Option ℕ) (p : Option ℕ) (b : ℕ) (bs : List ℕ) → Chain next p (b ∷ bs) → p ≡ some b
Chain-cons next none b bs c = absurd c
Chain-cons next (some a) b bs c = ap some c.0

EndsAt-some :
    (tail : Option ℕ) (b : ℕ) (bs : List ℕ) → EndsAt tail (b ∷ bs) → (t : ℕ) × (tail ≡ some t)
EndsAt-some tail b [] e = (b, e)
EndsAt-some tail b (c ∷ bs) e = EndsAt-some tail c bs e

pub ready_step-select :
    (r : ReadyList) (b : ℕ) (e : Event)
    → r.done ≡ false
    → r.first_ready ≡ some b
    → ready_step r e ≡ select_ready r b e
unfolding ready_step
ready_step-select r b e running first = ground (arith, running, first)

module _ (r : ReadyList) (i : ℕ) where
  set_if_missing-new :
      (fs : List ℕ) (n x : ℕ)
      → lookup i r.descriptors ≡ none
      → obtain r r.free ≡ (record r { free = fs; fresh = n }, x)
      → set_if_missing r i ≡ (placed r fs n x i, some x)
  unfolding set_if_missing place
  set_if_missing-new fs n x absent e = ground (arith, absent, e)

  set_if_missing-old : (a : ℕ) → lookup i r.descriptors ≡ some a → set_if_missing r i ≡ (r, none)
  unfolding set_if_missing
  set_if_missing-old a there = ground (arith, there)

  signal_first : Represents r [] → Agrees r [] (signal i)
  unfolding ready_step select_idle start_with queue_step open_step
  signal_first rep =
      let (fs, n, x, e, spare) = obtain-IsSpare r [] r.free rep refl in
      let made = set_if_missing-new fs n x (rep.mapped i) e in
      (
        record (placed r fs n x i) { first_ready = some x },
        x ∷ [],
        ground (arith, rep.first, rep.running, made),
        first-Represents r fs n x i rep spare,
        ground arith,
      )

  module _ (b : ℕ) (bs : List ℕ) (rep : Represents r (b ∷ bs)) where
    signal_again : waits_in i (ids_of r.store.id (b ∷ bs)) ≡ true → Agrees r (b ∷ bs) (signal i)
    unfolding queue_step open_step enqueued select_ready
    signal_again there =
        let (a, at) =
          some_of (where_is r.store.id (b ∷ bs) i) (where_is_iff r.store.id i (b ∷ bs) ∙ there) in
        (
          r,
          b ∷ bs,
          ready_step-select r b (signal i) rep.running rep.first
              ∙ ap enqueued (set_if_missing-old a (rep.mapped i ∙ at)),
          rep,
          rw there refl,
        )

    is_absent :
        waits_in i (ids_of r.store.id (b ∷ bs)) ≡ false → where_is r.store.id (b ∷ bs) i ≡ none
    is_absent new =
        not_some (where_is r.store.id (b ∷ bs) i) (where_is_iff r.store.id i (b ∷ bs) ∙ new)

    module _ (fs : List ℕ) (n x : ℕ) (spare : IsSpare r (b ∷ bs) fs n x)
        (e : obtain r r.free ≡ (record r { free = fs; fresh = n }, x))
        (new : waits_in i (ids_of r.store.id (b ∷ bs)) ≡ false) where
      step_new :
          (r' : ReadyList)
          → enqueue (placed r fs n x i) x ≡ some r'
          → ready_step r (signal i) ≡ some (r', taken)
      unfolding select_ready enqueued taken_with
      step_new r' q =
          ready_step-select r b (signal i) rep.running rep.first
          ∙ (ap enqueued (set_if_missing-new fs n x (rep.mapped i ∙ is_absent new) e)
              ∙ ap taken_with q)

      queue_new :
          record { ids = ids_of (update r.store.id x i) (b ∷ (bs ++ x ∷ [])); over = false }
          ≡ (queue_step (queue_of r (b ∷ bs)) (signal i)).0
      unfolding queue_step open_step
      queue_new =
          ap (λ q. record { ids = q; over = false })
            (ids_of_added r.store.id x i (b ∷ bs) spare.outside ∙ rw new refl)

  -- A new id behind one descriptor, and behind several
  signal_second :
      (b : ℕ)
      → Represents r (b ∷ [])
      → waits_in i (ids_of r.store.id (b ∷ [])) ≡ false
      → Agrees r (b ∷ []) (signal i)
  unfolding queue_step open_step
  signal_second b rep new =
      let (fs, n, x, e, spare) = obtain-IsSpare r (b ∷ []) r.free rep refl in
      (
        record (placed r fs n x i) { head = some x; tail = some x },
        b ∷ x ∷ [],
        step_new b [] rep fs n x spare e new
            (record (placed r fs n x i) { head = some x; tail = some x })
            (enqueue_empty (placed r fs n x i) x spare.blank
              (Chain-nil r.store.next r.head rep.chain)),
        second-Represents r fs n x i b [] rep spare refl new (is_absent b [] rep new),
        queue_new b [] rep fs n x spare e new,
      )

  signal_last :
      (b c : ℕ) (cs : List ℕ)
      → Represents r (b ∷ c ∷ cs)
      → waits_in i (ids_of r.store.id (b ∷ c ∷ cs)) ≡ false
      → Agrees r (b ∷ c ∷ cs) (signal i)
  unfolding queue_step open_step
  signal_last b c cs rep new =
      let (fs, n, x, e, spare) = obtain-IsSpare r (b ∷ c ∷ cs) r.free rep refl in
      let (t, at_t) = EndsAt-some r.tail c cs rep.ends in
      let r' = record (placed r fs n x i) {
        store = record r.store {
          id = update r.store.id x i;
          next = update r.store.next t (some x);
        };
        tail = some x;
      } in
      (
        r',
        b ∷ c ∷ (cs ++ x ∷ []),
        step_new b (c ∷ cs) rep fs n x spare e new r' (
            enqueue_last (placed r fs n x i) x c t spare.blank
              (Chain-cons r.store.next r.head c cs rep.chain) at_t),
        last-Represents r fs n x i b c t cs rep spare at_t new (is_absent b (c ∷ cs) rep new),
        queue_new b (c ∷ cs) rep fs n x spare e new,
      )

  -- Every signal is answered as the queue answers it.
  pub signal-Agrees : (bs : List ℕ) → Represents r bs → Agrees r bs (signal i)
  signal-Agrees [] rep = signal_first rep
  signal-Agrees (b ∷ []) rep = elim (Bool-cases (waits_in i (ids_of r.store.id (b ∷ [])))) [
    | inl there ↦ signal_again b [] rep there
    | inr new ↦ signal_second b rep new
  ]
  signal-Agrees (b ∷ c ∷ cs) rep = elim (Bool-cases (waits_in i (ids_of r.store.id (b ∷ c ∷ cs)))) [
    | inl there ↦ signal_again b (c ∷ cs) rep there
    | inr new ↦ signal_last b c cs rep new
  ]
