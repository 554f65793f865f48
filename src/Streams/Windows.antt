-- ===== src/Streams/Windows.antt =====
-- h2mux/muxedstream.go: what the windows and buffers of a stream add up to over any calls.

-- The calls of the application, the reader and the writer
use cloudflared.Common.{
  min, length, take, length-append, length-drop, ℕ, ◌+◌, ◌-◌, ◌≤◌, ◌<◌, ◌≡◌, sym, subst, ◌⊎◌, inl,
  inr, Bool, true, false, Option, none, some, List, [], ◌∷◌, ◌++◌, arith,
}
use cloudflared.Common.Bytes.{Bytes}
use cloudflared.Streams.Stream.{
  MuxedStream, new_stream, write, replenish_send_window, replenish_receive_window, read, grow,
  consume_receive_window, close_read, close_write, close_stream, put_headers, receive_eof, stored,
  account, ended_by, receive_frame_data, StreamChunk, get_chunk,
}
use mathlib.Core.List.{append-nil}

pub data Op : Type 0 where
  writes : Bytes → Op
  reads grants : ℕ → Op
  arrives : Bytes → Bool → Op
  puts : List (Bytes × Bytes) → Op
  chunks closes closes_read closes_write : Op

-- The stream, the bytes that Write took, those that chunks had, and the window that was granted
pub record Trace : Type 0 where
  pub stream : MuxedStream
  pub written : Bytes
  pub sent : Bytes
  pub granted : ℕ

abbrev pub fresh_trace : MuxedStream → Trace
fresh_trace s = record { stream = s; written = []; sent = []; granted = 0 }

abbrev note_written : Trace → Bytes → MuxedStream × Option ℕ → Trace
note_written t p (s, none) = record t { stream = s }
note_written t p (s, some n) = record t { stream = s; written = t.written ++ take n p }

abbrev note_sent : Trace → MuxedStream × StreamChunk → Trace
note_sent t (s, c) = record t { stream = s; sent = t.sent ++ c.buffer }

unfoldable pub op_step : Trace → Op → Trace
op_step t (writes p) = note_written t p (write t.stream p)
op_step t (reads n) = record t { stream = (read t.stream n).0 }
op_step t (grants n) = record t {
  stream = replenish_send_window t.stream n;
  granted = t.granted + n;
}
op_step t (arrives bytes end_stream) = record t {
  stream = (receive_frame_data t.stream bytes end_stream).0;
}
op_step t (puts headers) = record t { stream = (put_headers t.stream headers).0 }
op_step t chunks = note_sent t (get_chunk t.stream)
op_step t closes = record t { stream = close_stream t.stream }
op_step t closes_read = record t { stream = close_read t.stream }
op_step t closes_write = record t { stream = (close_write t.stream).0 }

abbrev pub run_ops : Trace → List Op → Trace
run_ops t [] = t
run_ops t (o ∷ os) = run_ops (op_step t o) os

-- The peer sends no more in a frame than the window allows at that time.
abbrev pub Respects : Trace → Op → Type 0
Respects t (arrives bytes end_stream) = length bytes ≤ t.stream.receive_window
Respects t _ = Unit {0}

abbrev pub Respect : Trace → List Op → Type 0
Respect t [] = Unit {0}
Respect t (o ∷ os) = Respects t o × Respect (op_step t o) os

-- The receive side
pub record IsBalanced (s : MuxedStream) : Type 0 where
  pub balance :
      s.received_eof ≡ false
      → s.receive_window + s.window_update + length s.read_buffer ≡ s.receive_window_current_max
  pub capped : s.receive_window_current_max ≤ s.receive_window_max
  pub hard : s.receive_window_max < 2147483648

grow-IsBalanced : (s : MuxedStream) → IsBalanced s → IsBalanced (grow s)
unfolding grow
grow-IsBalanced s b = ground arith

read-IsBalanced : (s : MuxedStream) (n : ℕ) → IsBalanced s → IsBalanced (read s n).0
unfolding read replenish_receive_window
read-IsBalanced s n b = ground (arith, length-drop (min n (length s.read_buffer)) s.read_buffer)

get_chunk-IsBalanced : (s : MuxedStream) → IsBalanced s → IsBalanced (get_chunk s).0
unfolding get_chunk
get_chunk-IsBalanced s b = ground arith

taken_in : MuxedStream → Bytes → MuxedStream
taken_in s bytes = record s {
  read_buffer = s.read_buffer ++ bytes;
  receive_window = s.receive_window - length bytes;
}

taken_in-IsBalanced :
    (s : MuxedStream) (bytes : Bytes)
    → length bytes ≤ s.receive_window
    → IsBalanced s
    → IsBalanced (taken_in s bytes)
unfolding taken_in
taken_in-IsBalanced s bytes h b = ground (arith, length-append s.read_buffer bytes)

ended-IsBalanced :
    (s : MuxedStream) (bytes : Bytes)
    → IsBalanced s
    → IsBalanced (receive_eof (record s { read_buffer = s.read_buffer ++ bytes })).0
unfolding receive_eof close_read
ended-IsBalanced s bytes b = record { balance = λ e. cc; capped = b.capped; hard = b.hard }

-- A frame is refused, ends the stream, or is taken in.
receive_frame_data-cases :
    (s : MuxedStream) (bytes : Bytes) (end_stream : Bool)
    → length bytes ≤ s.receive_window
    → ((receive_frame_data s bytes end_stream).0 ≡ s)
      ⊎ (((receive_frame_data s bytes end_stream).0
            ≡ (receive_eof (record s { read_buffer = s.read_buffer ++ bytes })).0)
          ⊎ ((receive_frame_data s bytes end_stream).0 ≡ grow (taken_in s bytes)))
unfolding receive_frame_data stored consume_receive_window account ended_by taken_in
receive_frame_data-cases s [] false h = ground (arith, append-nil s.read_buffer)
receive_frame_data-cases s [] true h = ground (arith, append-nil s.read_buffer)
receive_frame_data-cases s (b ∷ bs) false h = ground arith
receive_frame_data-cases s (b ∷ bs) true h = ground arith

receive_frame_data-IsBalanced :
    (s : MuxedStream) (bytes : Bytes) (end_stream : Bool)
    → length bytes ≤ s.receive_window
    → IsBalanced s
    → IsBalanced (receive_frame_data s bytes end_stream).0
receive_frame_data-IsBalanced s bytes end_stream h b =
    elim (receive_frame_data-cases s bytes end_stream h) [
      | inl same ↦ subst IsBalanced (sym same) b
      | inr (inl ended) ↦ subst IsBalanced (sym ended) (ended-IsBalanced s bytes b)
      | inr (inr taken) ↦
          subst IsBalanced (sym taken)
            (grow-IsBalanced (taken_in s bytes) (taken_in-IsBalanced s bytes h b))
    ]

write-IsBalanced :
    (t : Trace) (p : Bytes) → IsBalanced t.stream → IsBalanced (op_step t (writes p)).stream
unfolding op_step write
write-IsBalanced t p b = ground arith

op_step-IsBalanced :
    (t : Trace) (o : Op) → Respects t o → IsBalanced t.stream → IsBalanced (op_step t o).stream
unfolding op_step replenish_send_window put_headers close_stream close_read close_write
op_step-IsBalanced t (writes p) h b = write-IsBalanced t p b
op_step-IsBalanced t (reads n) h b = read-IsBalanced t.stream n b
op_step-IsBalanced t (grants n) h b = ground arith
op_step-IsBalanced t (arrives bytes end_stream) h b =
    receive_frame_data-IsBalanced t.stream bytes end_stream h b
op_step-IsBalanced t (puts headers) h b = ground arith
op_step-IsBalanced t chunks h b = get_chunk-IsBalanced t.stream b
op_step-IsBalanced t closes h b = ground arith
op_step-IsBalanced t closes_read h b = ground arith
op_step-IsBalanced t closes_write h b = ground arith

run_from-IsBalanced :
    (os : List Op) (t : Trace)
    → Respect t os
    → IsBalanced t.stream
    → IsBalanced (run_ops t os).stream
run_from-IsBalanced [] t h b = b
run_from-IsBalanced (o ∷ os) t h b =
    run_from-IsBalanced os (op_step t o) h.1 (op_step-IsBalanced t o h.0 b)

-- Over any calls on a new stream whose first window is within the hard limit, itself below 2^31,
-- while the peer sends no frame beyond the window: until the peer ends the stream, what the peer
-- may still send, what is to be announced to it and what waits to be read add up to the current
-- size of the window, which never passes the hard limit.
pub run_ops-IsBalanced :
    (first_window hard_max max_len : ℕ) (headers : Option (List (Bytes × Bytes))) (os : List Op)
    → first_window ≤ hard_max
    → hard_max < 2147483648
    → Respect (fresh_trace (new_stream first_window hard_max max_len headers)) os
    → IsBalanced
        (run_ops (fresh_trace (new_stream first_window hard_max max_len headers)) os).stream
run_ops-IsBalanced first_window hard_max max_len headers os h k r =
    run_from-IsBalanced os (fresh_trace (new_stream first_window hard_max max_len headers)) r
      (unfold new_stream in record { balance = λ e. omega arith; capped = h; hard = k })
