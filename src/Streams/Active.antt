-- ===== src/Streams/Active.antt =====
-- h2mux/activestreammap.go: activeStreamMap, whose methods each run under its lock. A stream is a
-- pointer, here a number; uint32 wraps at 2 ^ 32.

use cloudflared.Common.{
  ltb, ◌==◌, if◌then◌else◌, length, ℕ, ◌+◌, ◌-◌, ◌%◌, ◌^◌, Bool, true, false, ◌&&◌, not, Option,
  none, some, List, [], ◌∷◌, ◌++◌, map,
}
use cloudflared.Common.Map.{nat_eq, lookup, insert, erase}

pub record ActiveStreamMap : Type 0 where
  pub streams : List (ℕ × ℕ)
  pub next_stream_id : ℕ
  pub max_peer_stream_id : ℕ
  -- How often the gauge activeStreams was incremented and decremented.
  pub incs : ℕ
  pub decs : ℕ
  pub ignore_new_streams : Bool
  -- Whether streamsEmptyChan is closed.
  pub streams_empty : Bool
  -- The streams that Abort closed.
  pub closed : List ℕ

unfoldable pub new_active_stream_map : Bool → ActiveStreamMap
new_active_stream_map use_client_stream_numbers = record {
  streams = [];
  next_stream_id = if use_client_stream_numbers then 1 else 2;
  max_peer_stream_id = 0;
  incs = 0;
  decs = 0;
  ignore_new_streams = false;
  streams_empty = false;
  closed = [];
}

-- notifyStreamsEmpty, whose closeOnce makes a second call do nothing
abbrev pub notify_streams_empty : ActiveStreamMap → ActiveStreamMap
notify_streams_empty m = record m { streams_empty = true }

-- Len, Get
abbrev pub len : ActiveStreamMap → ℕ
len m = length m.streams

unfoldable pub get : ActiveStreamMap → ℕ → Option ℕ
get m stream_id = lookup stream_id m.streams

abbrev pub is_present : Option ℕ → Bool
is_present none = false
is_present (some stream) = true

-- Set, of a stream with its ID
unfoldable pub set : ActiveStreamMap → ℕ → ℕ → ActiveStreamMap × Bool
set m stream_id stream =
    if is_present (lookup stream_id m.streams)
    then (m, false)
    else if m.ignore_new_streams
    then (m, false)
    else (record m { streams = insert stream_id stream m.streams; incs = m.incs + 1 }, true)

-- The first part of Delete
unfoldable pub untrack : ActiveStreamMap → ℕ → ActiveStreamMap
untrack m stream_id =
    if is_present (lookup stream_id m.streams)
    then record m { streams = erase stream_id m.streams; decs = m.decs + 1 }
    else m

unfoldable pub notify_if_drained : ActiveStreamMap → ActiveStreamMap
notify_if_drained m = if m.ignore_new_streams && (len m == 0) then notify_streams_empty m else m

unfoldable pub delete : ActiveStreamMap → ℕ → ActiveStreamMap
delete m stream_id = notify_if_drained (untrack m stream_id)

-- Shutdown: whether one was already in progress
unfoldable pub shutdown : ActiveStreamMap → ActiveStreamMap × Bool
shutdown m =
    if m.ignore_new_streams
    then (m, true)
    else let m' = record m { ignore_new_streams = true } in
      (if len m == 0 then notify_streams_empty m' else m', false)

unfoldable pub acquire_local_id : ActiveStreamMap → ActiveStreamMap × ℕ
acquire_local_id m =
    (record m { next_stream_id = (m.next_stream_id + 2) % 2 ^ 32 }, m.next_stream_id)

-- AcquirePeerID: whether the stream is accepted, otherwise its error code is ErrCodeStreamClosed.
unfoldable pub acquire_peer_id : ActiveStreamMap → ℕ → ActiveStreamMap × Bool
acquire_peer_id m stream_id =
    if m.ignore_new_streams
    then (m, false)
    else if ltb m.max_peer_stream_id stream_id
    then (record m { max_peer_stream_id = stream_id }, true)
    else (m, false)

unfoldable pub is_peer_stream_id : ActiveStreamMap → ℕ → Bool
is_peer_stream_id m stream_id = not (stream_id % 2 == m.next_stream_id % 2)

unfoldable pub is_local_stream_id : ActiveStreamMap → ℕ → Bool
is_local_stream_id m stream_id =
    (stream_id % 2 == m.next_stream_id % 2) && ltb stream_id m.next_stream_id

unfoldable pub last_local_stream_id : ActiveStreamMap → ℕ
last_local_stream_id m = if ltb 1 m.next_stream_id then m.next_stream_id - 2 else 0

abbrev pub pointer : ℕ × ℕ → ℕ
pointer (stream_id, stream) = stream

unfoldable pub abort : ActiveStreamMap → ActiveStreamMap
abort m =
    notify_streams_empty
      (record m { ignore_new_streams = true; closed = map pointer m.streams ++ m.closed })

-- A call of one of the methods that change the map.
pub data Call : Type 0 where
  sets : (stream_id stream : ℕ) → Call
  deletes : (stream_id : ℕ) → Call
  shuts_down aborts acquires_local_id : Call
  acquires_peer_id : (stream_id : ℕ) → Call

unfoldable pub perform : ActiveStreamMap → Call → ActiveStreamMap
perform m (sets stream_id stream) = (set m stream_id stream).0
perform m (deletes stream_id) = delete m stream_id
perform m shuts_down = (shutdown m).0
perform m aborts = abort m
perform m acquires_local_id = (acquire_local_id m).0
perform m (acquires_peer_id stream_id) = (acquire_peer_id m stream_id).0

unfoldable pub run_calls : ActiveStreamMap → List Call → ActiveStreamMap
run_calls m [] = m
run_calls m (c ∷ cs) = run_calls (perform m c) cs
