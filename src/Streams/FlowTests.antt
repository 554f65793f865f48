-- ===== src/Streams/FlowTests.antt =====
-- A stream with a first window of 8 bytes, that may grow to 20, and a write buffer of 4.

use cloudflared.Common.{◌≡◌, refl, ◌⊎◌, Bool, true, false, none, some, List, [], ◌∷◌, arith}
use cloudflared.Common.Bytes.{Bytes, str}
use cloudflared.Streams.Stream.{
  new_stream, write, replenish_send_window, replenish_receive_window, read, grow,
  consume_receive_window, close_read, close_write, receive_eof, stored, account, ended_by,
  receive_frame_data, StreamChunk, get_chunk, next_data_frame, and_frame, frames_from, data_frames,
}
use cloudflared.Streams.Windows.{
  Op, writes, reads, grants, arrives, chunks, closes_write, Trace, fresh_trace, op_step, run_ops,
  Respect, IsBalanced, run_ops-IsBalanced,
}
use cloudflared.Streams.Outgoing.{IsOutgoing, run_ops-IsOutgoing}
use cloudflared.Streams.Frames.{joined, AreFrames, data_frames-total}

abbrev opened : Trace
opened = fresh_trace (new_stream 8 20 4 none)

abbrev calls : List Op
calls =
    arrives (str "abcde") false
    ∷ reads 3
    ∷ writes (str "xyzuvw")
    ∷ chunks
    ∷ arrives (str "fgh") false
    ∷ writes (str "uvw")
    ∷ grants 5
    ∷ reads 9
    ∷ chunks
    ∷ closes_write
    ∷ arrives [] true
    ∷ []

after_calls : (run_ops opened calls).sent ≡ str "xyzuuvw"
unfolding op_step new_stream write read get_chunk receive_frame_data stored consume_receive_window
    grow account ended_by receive_eof close_read close_write replenish_receive_window
    replenish_send_window
after_calls = refl

window_after : (run_ops opened calls).stream.receive_window_current_max ≡ 16
unfolding op_step new_stream write read get_chunk receive_frame_data stored consume_receive_window
    grow account ended_by receive_eof close_read close_write replenish_receive_window
    replenish_send_window
window_after = refl

respected : Respect opened calls
unfolding op_step new_stream write read get_chunk receive_frame_data stored consume_receive_window
    grow account ended_by receive_eof close_read close_write replenish_receive_window
    replenish_send_window
respected = omega arith

run_ops-IsBalanced_example : IsBalanced (run_ops opened calls).stream
run_ops-IsBalanced_example =
    run_ops-IsBalanced 8 20 4 none calls (omega arith) (omega arith) respected

run_ops-IsOutgoing_example : IsOutgoing 8 (run_ops opened calls)
run_ops-IsOutgoing_example = run_ops-IsOutgoing 8 20 4 none calls (omega arith)

abbrev chunk : StreamChunk
chunk = record {
  send_headers = false;
  headers = none;
  update = 0;
  send_data = true;
  eof = true;
  buffer = str "abcde";
}

framed : data_frames 6 2 chunk ≡ some ((str "ab", false) ∷ (str "cd", false) ∷ (str "e", true) ∷ [])
unfolding data_frames frames_from next_data_frame and_frame
framed = refl

data_frames-total_example :
    (fs : List (Bytes × Bool)) × (data_frames 6 2 chunk ≡ some fs)
    × (((true ≡ false) × (fs ≡ []))
        ⊎ ((true ≡ true) × (AreFrames 2 true fs × (joined fs ≡ str "abcde"))))
data_frames-total_example = data_frames-total 6 2 chunk (omega arith) (omega arith)
