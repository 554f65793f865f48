-- ===== src/Streams/Ids.antt =====
-- h2mux/activestreammap.go: stream IDs, ours and the peer's, over any calls.

-- How many local IDs the calls acquire.
use cloudflared.Common.{
  ℕ, suc, ◌+◌, ◌*◌, ◌%◌, ◌^◌, ◌≤◌, ◌<◌, ◌≡◌, ◌≢◌, ◌⊎◌, true, false, List, [], ◌∷◌, arith,
}
use cloudflared.Streams.Active.{
  ActiveStreamMap, set, untrack, notify_if_drained, delete, shutdown, acquire_local_id,
  acquire_peer_id, is_peer_stream_id, abort, Call, sets, deletes, shuts_down, aborts,
  acquires_local_id, acquires_peer_id, perform, run_calls,
}

unfoldable pub acquired : List Call → ℕ
acquired [] = 0
acquired (acquires_local_id ∷ cs) = suc (acquired cs)
acquired (_ ∷ cs) = acquired cs

-- What a call leaves of the IDs.
perform-next :
    (m : ActiveStreamMap) (c : Call) (cs : List Call)
    → (acquired (c ∷ cs) ≡ acquired cs) × ((perform m c).next_stream_id ≡ m.next_stream_id)
      ⊎ ((acquired (c ∷ cs) ≡ suc (acquired cs))
          × ((perform m c).next_stream_id ≡ (m.next_stream_id + 2) % 2 ^ 32))
unfolding acquired perform set delete untrack notify_if_drained shutdown abort acquire_local_id
    acquire_peer_id
perform-next m (sets id stream) cs = ground arith
perform-next m (deletes id) cs = ground arith
perform-next m shuts_down cs = ground arith
perform-next m aborts cs = ground arith
perform-next m acquires_local_id cs = ground arith
perform-next m (acquires_peer_id id) cs = ground arith

run_calls-next :
    (m : ActiveStreamMap) (cs : List Call)
    → m.next_stream_id < 2 ^ 32
    → (run_calls m cs).next_stream_id ≡ (m.next_stream_id + 2 * acquired cs) % 2 ^ 32
unfolding run_calls
run_calls-next m [] h = unfold acquired in omega arith
run_calls-next m (c ∷ cs) h = ground (arith, perform-next m c cs, run_calls-next (perform m c) cs)

perform-max :
    (m : ActiveStreamMap) (c : Call) → m.max_peer_stream_id ≤ (perform m c).max_peer_stream_id
unfolding perform set delete untrack notify_if_drained shutdown abort acquire_local_id
    acquire_peer_id
perform-max m (sets id stream) = ground arith
perform-max m (deletes id) = ground arith
perform-max m shuts_down = ground arith
perform-max m aborts = ground arith
perform-max m acquires_local_id = ground arith
perform-max m (acquires_peer_id id) = ground arith

run_calls-max :
    (m : ActiveStreamMap) (cs : List Call)
    → m.max_peer_stream_id ≤ (run_calls m cs).max_peer_stream_id
unfolding run_calls
run_calls-max m [] = omega arith
run_calls-max m (c ∷ cs) = omega (arith, perform-max m c, run_calls-max (perform m c) cs)

-- A local ID is not given out again while fewer than 2 ^ 31 IDs have been acquired since: after any
-- calls, the next ID is another one, of the same parity.
pub acquire_local_id-fresh :
    (m : ActiveStreamMap) (cs : List Call)
    → m.next_stream_id < 2 ^ 32
    → acquired cs + 1 < 2 ^ 31
    → let (m', id) = acquire_local_id m in
      let id' = (acquire_local_id (run_calls m' cs)).1 in
      (id' ≢ id) × (id' % 2 ≡ id % 2) × (is_peer_stream_id (run_calls m' cs) id ≡ false)
unfolding acquire_local_id is_peer_stream_id
acquire_local_id-fresh m cs small few =
    let m' = record m { next_stream_id = (m.next_stream_id + 2) % 2 ^ 32 } in
    let next : (run_calls m' cs).next_stream_id
        ≡ ((m.next_stream_id + 2) % 2 ^ 32 + 2 * acquired cs) % 2 ^ 32 =
      run_calls-next m' cs (omega arith) in
    let parity : (run_calls m' cs).next_stream_id % 2 ≡ m.next_stream_id % 2 =
      omega (arith, next) in
    ((λ same. omega (arith, next, same)), parity, ground (arith, parity))

acquire_peer_id-max :
    (m : ActiveStreamMap) (id : ℕ)
    → (acquire_peer_id m id).1 ≡ true
    → (acquire_peer_id m id).0.max_peer_stream_id ≡ id
unfolding acquire_peer_id
acquire_peer_id-max m id e = ground arith

rejected :
    (m : ActiveStreamMap) (id : ℕ) → id ≤ m.max_peer_stream_id → (acquire_peer_id m id).1 ≡ false
unfolding acquire_peer_id
rejected m id h = ground arith

-- A peer's stream ID that was accepted is never accepted again, whatever is called in between.
pub acquire_peer_id_once :
    (m : ActiveStreamMap) (id : ℕ) (cs : List Call)
    → (acquire_peer_id m id).1 ≡ true
    → (acquire_peer_id (run_calls (acquire_peer_id m id).0 cs) id).1 ≡ false
acquire_peer_id_once m id cs e =
    let grown = run_calls-max (acquire_peer_id m id).0 cs in
    let top : (acquire_peer_id m id).0.max_peer_stream_id ≡ id = acquire_peer_id-max m id e in
    rejected (run_calls (acquire_peer_id m id).0 cs) id (omega (arith, grown, top))
