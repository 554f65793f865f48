-- ===== src/Streams/Fairness.antt =====
-- h2mux/readylist.go: a stream that is signalled gets its turn.

use cloudflared.Common.{
  ◌==◌, if◌then◌else◌, Bool-cases, length, ℕ, suc, ◌≤◌, ◌<◌, ◌≡◌, refl, ap, ◌∙◌, inl, inr, true,
  false, some, List, [], ◌∷◌, ◌++◌, arith,
}
use cloudflared.Streams.Ready.{
  new_ready_list, Event, signal, receive, close, Reply, taken, ready_run,
}
use cloudflared.Streams.Queue.{waits_in, Queue, give, open_step, queue_step, queue_run}
use cloudflared.Streams.Refinement.{
  empty_queue, ready_run-refines, pending, receives, stays_open, gives,
}

abbrev ahead : ℕ → List ℕ → ℕ
ahead i [] = 0
ahead i (j ∷ q) = if i == j then 0 else suc (ahead i q)

ahead-append :
    (i j : ℕ) (q : List ℕ)
    → waits_in i q ≡ true
    → (waits_in i (q ++ j ∷ []) ≡ true) × (ahead i (q ++ j ∷ []) ≡ ahead i q)
ahead-append i j [] h = cc
ahead-append i j (k ∷ q) h = ground (arith, ahead-append i j q)

gives_in_time :
    (es : List Event) (i : ℕ) (q : List ℕ)
    → stays_open es ≡ true
    → waits_in i q ≡ true
    → ahead i q < receives es
    → gives i (queue_run (record { ids = q; over = false }) es) ≡ true
unfolding queue_run queue_step open_step give
gives_in_time [] i q o w h = absurd (omega arith)
gives_in_time (close ∷ es) i q o w h = cc
gives_in_time (signal j ∷ es) i q o w h = elim (Bool-cases (waits_in j q)) [
  | inl old ↦ rw old (gives_in_time es i q o w h)
  | inr new ↦
      let (w', same) = ahead-append i j q w in
      rw new (gives_in_time es i (q ++ j ∷ []) o w' (omega (arith, same)))
]
gives_in_time (receive ∷ es) i [] o w h = cc
gives_in_time (receive ∷ es) i (k ∷ q) o w h = ground (arith, gives_in_time es i q)

ahead_signalled :
    (i : ℕ) (q : List ℕ)
    → (waits_in i (if waits_in i q then q else q ++ i ∷ []) ≡ true)
      × (ahead i (if waits_in i q then q else q ++ i ∷ []) ≤ length q)
ahead_signalled i [] = ground arith
ahead_signalled i (j ∷ q) = ground (arith, ahead_signalled i q)

queue_run-append :
    (es fs : List Event) (q : Queue)
    → queue_run q (es ++ fs) ≡ queue_run q es ++ queue_run (pending q es) fs
unfolding queue_run
queue_run-append [] fs q = refl
queue_run-append (e ∷ es) fs q =
    ap (◌∷◌ (queue_step q e).1) (queue_run-append es fs (queue_step q e).0)

length-queue_run : (es : List Event) (q : Queue) → length (queue_run q es) ≡ length es
unfolding queue_run
length-queue_run [] q = refl
length-queue_run (e ∷ es) q = ap suc (length-queue_run es (queue_step q e).0)

give_open : (q : List ℕ) → (give q).0.over ≡ false
unfolding give
give_open [] = refl
give_open (i ∷ q) = refl

pending_open :
    (es : List Event) (q : Queue)
    → stays_open es ≡ true
    → q.over ≡ false
    → (pending q es).over ≡ false
unfolding queue_step open_step give
pending_open [] q o f = f
pending_open (signal i ∷ es) q o f =
    pending_open es (queue_step q (signal i)).0 o (ground (arith, f))
pending_open (receive ∷ es) q o f =
    pending_open es (queue_step q receive).0 o (ground (arith, f, give_open q.ids))
pending_open (close ∷ es) q o f = cc

signal_then :
    (i : ℕ) (q : Queue) (es : List Event)
    → q.over ≡ false
    → stays_open es ≡ true
    → length q.ids < receives es
    → (qs : List Reply) × (queue_run q (signal i ∷ es) ≡ taken ∷ qs) × (gives i qs ≡ true)
unfolding queue_run queue_step open_step
signal_then i q es f o h =
    let after = if waits_in i q.ids then q.ids else q.ids ++ i ∷ [] in
    let (w, n) = ahead_signalled i q.ids in
    (
      queue_run (record { ids = after; over = false }) es,
      ground (arith, f),
      gives_in_time es i after o w (omega arith),
    )

-- A stream that is signalled is not left behind: after any events before, its signal is taken, and
-- its id is given within as many receives as there were ids waiting, and one more, however many
-- signals of other streams come in between, as long as the list is not closed.
pub ready_run-gives :
    (before es : List Event) (i : ℕ)
    → stays_open before ≡ true
    → stays_open es ≡ true
    → length (pending empty_queue before).ids < receives es
    → (ps qs : List Reply) × (ready_run new_ready_list (before ++ signal i ∷ es)
        ≡ some (ps ++ taken ∷ qs))
      × (length ps ≡ length before)
      × (gives i qs ≡ true)
ready_run-gives before es i ob oe h =
    let q = pending empty_queue before in
    let (qs, run, given) = signal_then i q es (pending_open before empty_queue ob refl) oe h in
    (
      queue_run empty_queue before,
      qs,
      ready_run-refines (before ++ signal i ∷ es)
          ∙ ap some (
              queue_run-append before (signal i ∷ es) empty_queue
              ∙ ap (λ (l : List Reply). queue_run empty_queue before ++ l) run),
      length-queue_run before empty_queue,
      given,
    )
