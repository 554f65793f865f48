-- ===== src/Streams/Tests.antt =====
-- The theorems of the stream map on a short life of a server's map.

use cloudflared.Common.{length, ◌%◌, ◌≡◌, refl, ◌≢◌, true, false, some, List, [], ◌∷◌, ◌++◌, arith}
use cloudflared.Streams.Ready.{
  new_ready_list, append_at, enqueue, dequeue, obtain, place, set_if_missing, delete_key, Event,
  signal, receive, close, Reply, taken, waits, ended, gave, start_with, taken_with, enqueued,
  advance, select_ready, select_idle, ready_step, and_reply, ready_run,
}
use cloudflared.Streams.Queue.{open_step, queue_step, queue_run}
use cloudflared.Streams.Fairness.{ready_run-gives}
use cloudflared.Streams.Refinement.{empty_queue, ready_run-refines, gives}
use cloudflared.Common.Map.{nat_eq, lookup, insert, erase}
use cloudflared.Streams.Active.{
  ActiveStreamMap, new_active_stream_map, set, untrack, notify_if_drained, delete, shutdown,
  acquire_local_id, acquire_peer_id, is_peer_stream_id, Call, sets, deletes, shuts_down,
  acquires_local_id, acquires_peer_id, perform, run_calls,
}
use cloudflared.Streams.Upkeep.{IsSettled, run_calls-new-IsSettled}
use cloudflared.Streams.Ids.{acquired, acquire_local_id-fresh}

abbrev life : List Call
life =
    acquires_local_id
    ∷ sets 2 100
    ∷ acquires_peer_id 7
    ∷ sets 7 101
    ∷ shuts_down
    ∷ sets 9 102
    ∷ deletes 2
    ∷ deletes 7
    ∷ []

abbrev server_map : ActiveStreamMap
server_map = new_active_stream_map false

-- The last stream's deletion closes the done channel; the stream set during the shutdown is refused.
drained :
    let m = run_calls server_map life in
    (m.streams ≡ []) × (m.streams_empty ≡ true) × (m.next_stream_id ≡ 4)
unfolding run_calls perform new_active_stream_map set delete untrack notify_if_drained shutdown
    acquire_local_id acquire_peer_id lookup insert erase
drained = (refl, refl, refl)

run_calls-new-IsSettled_example : IsSettled (run_calls (new_active_stream_map false) life)
run_calls-new-IsSettled_example = run_calls-new-IsSettled false life

acquire_local_id-fresh_example :
    let (m', id) = acquire_local_id server_map in
    let id' = (acquire_local_id (run_calls m' life)).1 in
    (id' ≢ id) × (id' % 2 ≡ id % 2) × (is_peer_stream_id (run_calls m' life) id ≡ false)
unfolding new_active_stream_map acquired
acquire_local_id-fresh_example = acquire_local_id-fresh server_map life (omega arith) (omega arith)

-- Two streams; the first one signals again before its turn and after it.
abbrev traffic : List Event
traffic =
    signal 7
    ∷ signal 9
    ∷ signal 7
    ∷ receive
    ∷ signal 7
    ∷ receive
    ∷ receive
    ∷ receive
    ∷ close
    ∷ receive
    ∷ []

traffic_answers :
    ready_run new_ready_list traffic
    ≡ some (taken ∷ taken ∷ taken ∷ gave 7 ∷ taken ∷ gave 9 ∷ gave 7 ∷ waits ∷ ended ∷ ended ∷ [])
unfolding ready_run ready_step select_idle select_ready start_with enqueued taken_with advance
    enqueue append_at dequeue obtain place set_if_missing delete_key new_ready_list and_reply lookup
    insert erase
traffic_answers = refl

ready_run-refines_example : ready_run new_ready_list traffic ≡ some (queue_run empty_queue traffic)
ready_run-refines_example = ready_run-refines traffic

ready_run-gives_example :
    (ps qs : List Reply) × (ready_run new_ready_list
        ((signal 7 ∷ []) ++ signal 9 ∷ signal 7 ∷ receive ∷ receive ∷ [])
      ≡ some (ps ++ taken ∷ qs))
    × (length ps ≡ 1)
    × (gives 9 qs ≡ true)
ready_run-gives_example =
    ready_run-gives (signal 7 ∷ []) (signal 7 ∷ receive ∷ receive ∷ []) 9 refl refl
      (unfold queue_step open_step in omega arith)
