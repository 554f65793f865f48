-- ===== src/Streams/Outgoing.antt =====
-- h2mux/muxedstream.go: what is written to a stream comes out in order and within its window.

use cloudflared.Common.{
  min, Bool-cases, length, take, drop, length-append, take-append-drop, length-take, length-drop, ℕ,
  ◌+◌, ◌-◌, ◌≤◌, ◌<◌, ◌≡◌, refl, sym, ap, ◌∙◌, subst, inl, inr, Bool, true, false, Option, List, [],
  ◌∷◌, ◌++◌, arith,
}
use cloudflared.Common.Bytes.{Bytes}
use cloudflared.Streams.Stream.{
  MuxedStream, new_stream, write, replenish_send_window, replenish_receive_window, read, grow,
  consume_receive_window, close_read, close_write, close_stream, put_headers, receive_eof, stored,
  account, ended_by, receive_frame_data, get_chunk,
}
use cloudflared.Streams.Windows.{
  Op, writes, reads, grants, arrives, puts, chunks, closes, closes_read, closes_write, Trace,
  fresh_trace, op_step, run_ops,
}
use mathlib.Core.List.{append_assoc}

-- The send side, with the first window w
pub record IsOutgoing (w : ℕ) (t : Trace) : Type 0 where
  pub in_order : t.sent ++ t.stream.write_buffer ≡ t.written
  pub within : length t.sent + t.stream.send_window ≡ w + t.granted
  pub bounded : length t.stream.write_buffer ≤ t.stream.write_buffer_max_len

get_chunk-IsOutgoing : (w : ℕ) (t : Trace) → IsOutgoing w t → IsOutgoing w (op_step t chunks)
unfolding op_step get_chunk
get_chunk-IsOutgoing w t o =
    let n = min t.stream.send_window (length t.stream.write_buffer) in
    record {
      in_order =
          append_assoc t.sent (take n t.stream.write_buffer) (drop n t.stream.write_buffer)
          ∙ (ap (λ (b : Bytes). t.sent ++ b) (take-append-drop n t.stream.write_buffer)
              ∙ o.in_order);
      within = ground (
        arith,
        o.within,
        length-append t.sent (take n t.stream.write_buffer),
        length-take n t.stream.write_buffer,
      );
      bounded = omega (arith, o.bounded, length-drop n t.stream.write_buffer);
    }

-- Write takes what there is room for.
noted-IsOutgoing :
    (w n : ℕ) (t : Trace) (p : Bytes)
    → IsOutgoing w t
    → n ≤ length p
    → n + length t.stream.write_buffer ≤ t.stream.write_buffer_max_len
    → IsOutgoing w (record t {
      stream = record t.stream { write_buffer = t.stream.write_buffer ++ take n p };
      written = t.written ++ take n p;
    })
noted-IsOutgoing w n t p o fits room = record {
  in_order =
      sym (append_assoc t.sent t.stream.write_buffer (take n p))
      ∙ ap (λ (b : Bytes). b ++ take n p) o.in_order;
  within = o.within;
  bounded =
      omega (arith, room, length-append t.stream.write_buffer (take n p), length-take n p fits);
}

write_off : (t : Trace) (p : Bytes) → t.stream.write_eof ≡ true → op_step t (writes p) ≡ t
unfolding op_step write
write_off t p off = ground (arith, off)

write_on :
    (t : Trace) (p : Bytes)
    → t.stream.write_eof ≡ false
    → op_step t (writes p) ≡ (
        let n = min (length p) (t.stream.write_buffer_max_len - length t.stream.write_buffer) in
        record t {
          stream = record t.stream { write_buffer = t.stream.write_buffer ++ take n p };
          written = t.written ++ take n p;
        })
unfolding op_step write
write_on t p on = ground (arith, on)

write-IsOutgoing :
    (w : ℕ) (t : Trace) (p : Bytes) → IsOutgoing w t → IsOutgoing w (op_step t (writes p))
write-IsOutgoing w t p o =
    let room = t.stream.write_buffer_max_len - length t.stream.write_buffer in
    elim (Bool-cases t.stream.write_eof) [
      | inl off ↦ subst (IsOutgoing w) (sym (write_off t p off)) o
      | inr on ↦ subst (IsOutgoing w) (sym (write_on t p on)) (
          noted-IsOutgoing w (min (length p) room) t p o (ground arith) (ground (arith, o.bounded)))
    ]

-- What the reader does leaves the send side as it is.
Kept : MuxedStream → MuxedStream → Type 0
Kept s s' =
    (s'.write_buffer ≡ s.write_buffer)
    × (s'.send_window ≡ s.send_window)
    × (s'.write_buffer_max_len ≡ s.write_buffer_max_len)

receive_frame_data-Kept :
    (s : MuxedStream) (bytes : Bytes) (end_stream : Bool)
    → Kept s (receive_frame_data s bytes end_stream).0
unfolding Kept receive_frame_data stored consume_receive_window account ended_by receive_eof
    close_read grow
receive_frame_data-Kept s [] end_stream = ground arith
receive_frame_data-Kept s (b ∷ bs) end_stream = ground arith

put_headers-Kept :
    (s : MuxedStream) (headers : List (Bytes × Bytes)) → Kept s (put_headers s headers).0
unfolding Kept put_headers
put_headers-Kept s headers = ground arith

close_write-Kept : (s : MuxedStream) → Kept s (close_write s).0
unfolding Kept close_write
close_write-Kept s = ground arith

close_stream-Kept : (s : MuxedStream) → Kept s (close_stream s)
unfolding Kept close_stream close_read close_write
close_stream-Kept s = ground arith

Kept-IsOutgoing :
    (w : ℕ) (t : Trace) (s' : MuxedStream)
    → Kept t.stream s'
    → IsOutgoing w t
    → IsOutgoing w (record t { stream = s' })
unfolding Kept
Kept-IsOutgoing w t s' k o = record {
  in_order = ap (λ (b : Bytes). t.sent ++ b) k.0 ∙ o.in_order;
  within = omega (arith, k.1, o.within);
  bounded = omega (arith, ap length k.0, k.2, o.bounded);
}

-- The window that calls grant
abbrev pub granted_by : Op → ℕ
granted_by (grants n) = n
granted_by _ = 0

abbrev pub grants_of : List Op → ℕ
grants_of [] = 0
grants_of (o ∷ os) = granted_by o + grants_of os

op_step-IsOutgoing :
    (w : ℕ) (t : Trace) (o : Op)
    → w + t.granted + granted_by o < 4294967296
    → IsOutgoing w t
    → IsOutgoing w (op_step t o)
unfolding op_step replenish_send_window replenish_receive_window read put_headers close_stream
    close_read close_write
op_step-IsOutgoing w t (writes p) h g = write-IsOutgoing w t p g
op_step-IsOutgoing w t (reads n) h g = record {
  in_order = g.in_order;
  within = g.within;
  bounded = g.bounded;
}
op_step-IsOutgoing w t (grants n) h g = record {
  in_order = g.in_order;
  within = omega (arith, g.within);
  bounded = g.bounded;
}
op_step-IsOutgoing w t (arrives bytes end_stream) h g =
    Kept-IsOutgoing w t (receive_frame_data t.stream bytes end_stream).0
      (receive_frame_data-Kept t.stream bytes end_stream) g
op_step-IsOutgoing w t (puts headers) h g =
    Kept-IsOutgoing w t (put_headers t.stream headers).0 (put_headers-Kept t.stream headers) g
op_step-IsOutgoing w t chunks h g = get_chunk-IsOutgoing w t g
op_step-IsOutgoing w t closes h g =
    Kept-IsOutgoing w t (close_stream t.stream) (close_stream-Kept t.stream) g
op_step-IsOutgoing w t closes_read h g = record {
  in_order = g.in_order;
  within = g.within;
  bounded = g.bounded;
}
op_step-IsOutgoing w t closes_write h g =
    Kept-IsOutgoing w t (close_write t.stream).0 (close_write-Kept t.stream) g

granted_step : (t : Trace) (o : Op) → (op_step t o).granted ≡ t.granted + granted_by o
unfolding op_step write
granted_step t (grants n) = refl
granted_step t (writes p) = ground arith
granted_step t _ = ground arith

run_from-IsOutgoing :
    (w : ℕ) (os : List Op) (t : Trace)
    → w + t.granted + grants_of os < 4294967296
    → IsOutgoing w t
    → IsOutgoing w (run_ops t os)
run_from-IsOutgoing w [] t h g = g
run_from-IsOutgoing w (o ∷ os) t h g =
    run_from-IsOutgoing w os (op_step t o) (omega (arith, h, granted_step t o))
      (op_step-IsOutgoing w t o (omega (arith, h)) g)

-- Over any calls on a new stream, as long as the first window and all that is granted to it stay
-- below 2^32: the bytes of the chunks, followed by those in the write buffer, are the bytes that
-- Write took, in their order; the chunks' bytes and what may still be sent add up to the first
-- window and all that was granted, so that no chunk goes beyond the peer's window; and the write
-- buffer does not grow past its maximum.
pub run_ops-IsOutgoing :
    (first_window hard_max max_len : ℕ) (headers : Option (List (Bytes × Bytes))) (os : List Op)
    → first_window + grants_of os < 4294967296
    → IsOutgoing first_window
        (run_ops (fresh_trace (new_stream first_window hard_max max_len headers)) os)
unfolding new_stream
run_ops-IsOutgoing first_window hard_max max_len headers os h =
    run_from-IsOutgoing first_window os
      (fresh_trace (new_stream first_window hard_max max_len headers)) (omega arith)
      (record { in_order = refl; within = omega arith; bounded = omega arith })
