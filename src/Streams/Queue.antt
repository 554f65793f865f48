-- ===== src/Streams/Queue.antt =====
-- What ReadyList promises: a queue of ids without repetition, first in, first out.

use cloudflared.Common.{◌==◌, if◌then◌else◌, ℕ, Bool, true, false, ◌||◌, List, [], ◌∷◌, ◌++◌}
use cloudflared.Streams.Ready.{Event, signal, receive, close, Reply, taken, waits, ended, gave}

abbrev pub waits_in : ℕ → List ℕ → Bool
waits_in i [] = false
waits_in i (j ∷ q) = (i == j) || waits_in i q

-- The queue, and whether it was closed
pub record Queue : Type 0 where
  pub ids : List ℕ
  pub over : Bool

unfoldable pub give : List ℕ → Queue × Reply
give [] = (record { ids = []; over = false }, waits)
give (i ∷ q) = (record { ids = q; over = false }, gave i)

unfoldable pub open_step : List ℕ → Event → Queue × Reply
open_step q (signal i) =
    (record { ids = if waits_in i q then q else q ++ i ∷ []; over = false }, taken)
open_step q receive = give q
open_step q close = (record { ids = q; over = true }, ended)

unfoldable pub queue_step : Queue → Event → Queue × Reply
queue_step q e = if q.over then (q, ended) else open_step q.ids e

unfoldable pub queue_run : Queue → List Event → List Reply
queue_run q [] = []
queue_run q (e ∷ es) = let (q', p) = queue_step q e in p ∷ queue_run q' es
