-- ===== src/Streams/Ready.antt =====
-- h2mux/readylist.go: the streams that are ready, as a linked list of descriptors with a map from
-- the ids and a list of descriptors to reuse. A descriptor is an address; the store holds its two
-- fields. A step is one case of the selects of ReadyList.run.
use cloudflared.Common.{
  ◌==◌, if◌then◌else◌, ℕ, ◌+◌, Bool, true, false, Option, none, some, List, [], ◌∷◌,
}
use cloudflared.Common.Map.{nat_eq, lookup, insert, erase}

-- readyDescriptor; a nil Next is none.
pub record Store : Type 0 where
  pub id : ℕ → ℕ
  pub next : ℕ → Option ℕ

abbrev pub update {ℓ} : {A : Type ℓ} → (ℕ → A) → ℕ → A → ℕ → A
update f a v b = if b == a then v else f b

-- The locals of run; the queue is its head and tail, the map its descriptors and its free list,
-- whose last element is the first here. Addresses from `fresh` on are not allocated yet.
pub record ReadyList : Type 0 where
  pub store : Store
  pub fresh : ℕ
  pub head : Option ℕ
  pub tail : Option ℕ
  pub descriptors : List (ℕ × ℕ)
  pub free : List ℕ
  pub first_ready : Option ℕ
  pub done : Bool

unfoldable pub new_ready_list : ReadyList
new_ready_list = record {
  store = record { id = λ a. 0; next = λ a. none };
  fresh = 0;
  head = none;
  tail = none;
  descriptors = [];
  free = [];
  first_ready = none;
  done = false;
}

-- Enqueue; none is its panic, or that of a nil tail.
unfoldable pub append_at : ReadyList → ℕ → Option ℕ → Option ReadyList
append_at r x none = none
append_at r x (some t) =
    some
      (record r { store = record r.store { next = update r.store.next t (some x) }; tail = some x })

unfoldable pub enqueue : ReadyList → ℕ → Option ReadyList
enqueue r x = elim (r.store.next x) [
  | some y ↦ none
  | none ↦ elim r.head [
    | none ↦ some (record r { head = some x; tail = some x })
    | some h ↦ append_at r x r.tail
  ]
]

unfoldable pub dequeue : ReadyList → ReadyList × Option ℕ
dequeue r = elim r.head [
  | none ↦ (r, none)
  | some x ↦ (
    record r {
      head = r.store.next x;
      store = record r.store { next = update r.store.next x none };
    },
    some x,
  )
]

-- A descriptor of the free list, or a new one
unfoldable pub obtain : ReadyList → List ℕ → ReadyList × ℕ
obtain r [] = (record r { fresh = r.fresh + 1 }, r.fresh)
obtain r (x ∷ xs) = (record r { free = xs }, x)

unfoldable pub place : ℕ → ReadyList × ℕ → ReadyList × Option ℕ
place key (r, x) = (
  record r {
    store = record r.store { id = update r.store.id x key };
    descriptors = insert key x r.descriptors;
  },
  some x,
)

-- SetIfMissing; none is its nil.
unfoldable pub set_if_missing : ReadyList → ℕ → ReadyList × Option ℕ
set_if_missing r key = elim (lookup key r.descriptors) [
  | some a ↦ (r, none)
  | none ↦ place key (obtain r r.free)
]

unfoldable pub delete_key : ReadyList → ℕ → ReadyList
delete_key r key = elim (lookup key r.descriptors) [
  | some a ↦ record r { free = a ∷ r.free; descriptors = erase key r.descriptors }
  | none ↦ r
]

-- What the other goroutines do: Signal, a receive from ReadyChannel, Close.
pub data Event : Type 0 where
  signal : ℕ → Event
  receive close : Event

-- What they see: the signal is taken, the id that is received, nothing yet, or the end.
pub data Reply : Type 0 where
  taken waits ended : Reply
  gave : ℕ → Reply

-- The first select; the second one reads the id of the descriptor, which panics on nil.
unfoldable pub start_with : ReadyList × Option ℕ → Option (ReadyList × Reply)
start_with (r, none) = none
start_with (r, some x) = some (record r { first_ready = some x }, taken)

unfoldable pub taken_with : Option ReadyList → Option (ReadyList × Reply)
taken_with none = none
taken_with (some r) = some (r, taken)

unfoldable pub enqueued : ReadyList × Option ℕ → Option (ReadyList × Reply)
enqueued (r, none) = some (r, taken)
enqueued (r, some x) = taken_with (enqueue r x)

unfoldable pub advance : ℕ → ReadyList × Option ℕ → Option (ReadyList × Reply)
advance given (r, x) = some (record r { first_ready = x }, gave given)

-- The second select, with the first descriptor that is ready
unfoldable pub select_ready : ReadyList → ℕ → Event → Option (ReadyList × Reply)
select_ready r x (signal i) = enqueued (set_if_missing r i)
select_ready r x receive = advance (r.store.id x) (dequeue (delete_key r (r.store.id x)))
select_ready r x close = some (record r { done = true }, ended)

unfoldable pub select_idle : ReadyList → Event → Option (ReadyList × Reply)
select_idle r (signal i) = start_with (set_if_missing r i)
select_idle r receive = some (r, waits)
select_idle r close = some (record r { done = true }, ended)

-- One event; none is a panic of run.
unfoldable pub ready_step : ReadyList → Event → Option (ReadyList × Reply)
ready_step r e =
    if r.done
    then some (r, ended)
    else elim r.first_ready [ none ↦ select_idle r e | some x ↦ select_ready r x e ]

unfoldable pub and_reply : Reply → Option (List Reply) → Option (List Reply)
and_reply p (some ps) = some (p ∷ ps)
and_reply p none = none

unfoldable pub ready_run : ReadyList → List Event → Option (List Reply)
ready_run r [] = some []
ready_run r (e ∷ es) = elim (ready_step r e) [
  | none ↦ none
  | some (r', p) ↦ and_reply p (ready_run r' es)
]
