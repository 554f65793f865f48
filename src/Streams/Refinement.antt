-- ===== src/Streams/Refinement.antt =====
-- h2mux/readylist.go: ReadyList implements its queue, and no stream that is ready is left behind.

use cloudflared.Common.{
  ◌==◌, ℕ, suc, ◌≡◌, refl, Bool, true, false, ◌||◌, some, List, [], ◌∷◌, arith,
}
use cloudflared.Common.Map.{nat_eq, lookup}
use cloudflared.Streams.Ready.{
  ReadyList, new_ready_list, Event, signal, receive, close, Reply, taken, waits, ended, gave,
  select_ready, select_idle, ready_step, and_reply, ready_run,
}
use cloudflared.Streams.Queue.{Queue, open_step, queue_step, queue_run}
use cloudflared.Streams.Represents.{Represents}
use cloudflared.Streams.Signals.{queue_of, signal-Agrees}
use cloudflared.Streams.Departures.{receive-Agrees}

abbrev pub empty_queue : Queue
empty_queue = record { ids = []; over = false }

new_ready_list-Represents : Represents new_ready_list []
unfolding new_ready_list lookup
new_ready_list-Represents = record {
  first = refl;
  alone = λ a e. refl;
  chain = tt;
  ends = tt;
  unique = λ a. ground arith;
  clean = λ a h. refl;
  mapped = λ k. refl;
  once = λ k. omega arith;
  running = refl;
}

-- After its end a list answers nothing but that.
ended_run :
    (es : List Event) (r : ReadyList) (q : Queue)
    → r.done ≡ true
    → q.over ≡ true
    → ready_run r es ≡ some (queue_run q es)
unfolding ready_run queue_run ready_step queue_step and_reply
ended_run [] r q d o = refl
ended_run (e ∷ es) r q d o = ground (arith, ended_run es r q d o)

close_step :
    (r : ReadyList) → r.done ≡ false → ready_step r close ≡ some (record r { done = true }, ended)
unfolding ready_step select_idle select_ready
close_step r running = ground (arith, running)

next_run :
    (e : Event) (es : List Event) (r r' : ReadyList) (q q' : Queue)
    → ready_step r e ≡ some (r', (queue_step q e).1)
    → q' ≡ (queue_step q e).0
    → ready_run r' es ≡ some (queue_run q' es)
    → ready_run r (e ∷ es) ≡ some (queue_run q (e ∷ es))
unfolding ready_run queue_run and_reply
next_run e es r r' q q' s same rest = ground (arith, s, same, rest)

agreed_run :
    (es : List Event) (r : ReadyList) (bs : List ℕ)
    → Represents r bs
    → ready_run r es ≡ some (queue_run (queue_of r bs) es)
agreed_run [] r bs rep = unfold ready_run queue_run in refl
agreed_run (signal i ∷ es) r bs rep =
    let (r', cs, s, rep', same) = signal-Agrees r i bs rep in
    next_run (signal i) es r r' (queue_of r bs) (queue_of r' cs) s same (agreed_run es r' cs rep')
agreed_run (receive ∷ es) r bs rep =
    let (r', cs, s, rep', same) = receive-Agrees r bs rep in
    next_run receive es r r' (queue_of r bs) (queue_of r' cs) s same (agreed_run es r' cs rep')
agreed_run (close ∷ es) r bs rep =
    let q = (queue_step (queue_of r bs) close).0 in
    next_run close es r (record r { done = true }) (queue_of r bs) q
      (unfold queue_step open_step in close_step r rep.running) refl
      (ended_run es (record r { done = true }) q refl (unfold queue_step open_step in refl))

-- A new ReadyList, whatever signals, receives and closings come in whatever order, does not panic
-- and answers each of them as a queue of ids does that holds each id at most once: a signal of an
-- id that waits changes nothing, another goes to the end, a receive gives the first id or waits
-- while there is none, and after it is closed everything ends.
pub ready_run-refines :
    (es : List Event) → ready_run new_ready_list es ≡ some (queue_run empty_queue es)
ready_run-refines es = agreed_run es new_ready_list [] new_ready_list-Represents

-- The queue after the events
abbrev pub pending : Queue → List Event → Queue
pending q [] = q
pending q (e ∷ es) = pending (queue_step q e).0 es

abbrev pub receives : List Event → ℕ
receives [] = 0
receives (receive ∷ es) = suc (receives es)
receives (signal i ∷ es) = receives es
receives (close ∷ es) = receives es

abbrev pub stays_open : List Event → Bool
stays_open [] = true
stays_open (close ∷ es) = false
stays_open (signal i ∷ es) = stays_open es
stays_open (receive ∷ es) = stays_open es

abbrev pub gives : ℕ → List Reply → Bool
gives i [] = false
gives i (gave j ∷ ps) = (i == j) || gives i ps
gives i (taken ∷ ps) = gives i ps
gives i (waits ∷ ps) = gives i ps
gives i (ended ∷ ps) = gives i ps
