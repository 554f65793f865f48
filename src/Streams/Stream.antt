-- ===== src/Streams/Stream.antt =====
-- h2mux/muxedstream.go: the two flow-control windows of a stream and its buffers, with
-- receiveFrameData of h2mux/muxreader.go. Windows are 32-bit words. The buffers are the plain ones,
-- without a compression dictionary; every method holds the lock, so that a run is a list of calls.
use cloudflared.Common.{
  ltb, leb, ◌==◌, if◌then◌else◌, min, length, take, drop, ℕ, zero, suc, ◌+◌, ◌-◌, ◌*◌, ◌/◌, ◌%◌,
  Bool, true, false, ◌&&◌, ◌||◌, not, Option, none, some, List, [], ◌∷◌, ◌++◌,
}
use cloudflared.Common.Bytes.{Bytes}

abbrev pub word : ℕ → ℕ
word n = n % 4294967296

pub record MuxedStream : Type 0 where
  pub read_buffer : Bytes
  pub read_closed : Bool
  pub receive_window : ℕ
  pub receive_window_current_max : ℕ
  pub receive_window_max : ℕ
  pub window_update : ℕ
  pub write_buffer : Bytes
  pub write_buffer_max_len : ℕ
  pub send_window : ℕ
  pub headers_sent : Bool
  pub write_headers : Option (List (Bytes × Bytes))
  pub write_eof : Bool
  pub sent_eof : Bool
  pub received_eof : Bool

unfoldable pub new_stream : ℕ → ℕ → ℕ → Option (List (Bytes × Bytes)) → MuxedStream
new_stream default_window_size max_window_size write_buffer_max_len headers = record {
  read_buffer = [];
  read_closed = false;
  receive_window = default_window_size;
  receive_window_current_max = default_window_size;
  receive_window_max = max_window_size;
  window_update = 0;
  write_buffer = [];
  write_buffer_max_len = write_buffer_max_len;
  send_window = default_window_size;
  headers_sent = false;
  write_headers = headers;
  write_eof = false;
  sent_eof = false;
  received_eof = false;
}

-- One turn of the loop in Write: none for EOF, else how much was written, 0 when it has to wait.
unfoldable pub write : MuxedStream → Bytes → MuxedStream × Option ℕ
write s p =
    if s.write_eof
    then (s, none)
    else let amount = min (length p) (s.write_buffer_max_len - length s.write_buffer) in
      (record s { write_buffer = s.write_buffer ++ take amount p }, some amount)

unfoldable pub replenish_send_window : MuxedStream → ℕ → MuxedStream
replenish_send_window s bytes = record s { send_window = word (s.send_window + bytes) }

unfoldable pub replenish_receive_window : MuxedStream → ℕ → MuxedStream
replenish_receive_window s bytes = record s { window_update = word (s.window_update + bytes) }

-- Read into n bytes, when it does not wait
unfoldable pub read : MuxedStream → ℕ → MuxedStream × Bytes
read s n = (
  replenish_receive_window
      (record s { read_buffer = drop (min n (length s.read_buffer)) s.read_buffer })
      (min n (length s.read_buffer)),
  take (min n (length s.read_buffer)) s.read_buffer,
)

abbrev pub raised_max : MuxedStream → ℕ
raised_max s = min (word (s.receive_window_current_max * 2)) s.receive_window_max

-- The window when it has run low: its maximum doubles up to the hard limit.
unfoldable pub grow : MuxedStream → MuxedStream
grow s =
    if ltb s.receive_window (s.receive_window_current_max / 2)
      && ltb s.receive_window_current_max s.receive_window_max
    then record s {
      window_update = word (s.window_update + (raised_max s - s.receive_window_current_max));
      receive_window_current_max = raised_max s;
    }
    else s

unfoldable pub consume_receive_window : MuxedStream → ℕ → MuxedStream × Bool
consume_receive_window s bytes =
    if ltb s.receive_window bytes
    then (s, false)
    else (grow (record s { receive_window = s.receive_window - bytes }), true)

unfoldable pub close_read : MuxedStream → MuxedStream
close_read s = record s { read_closed = true }

-- CloseWrite; the flag is false for its EOF.
unfoldable pub close_write : MuxedStream → MuxedStream × Bool
close_write s = if s.write_eof then (s, false) else (record s { write_eof = true }, true)

-- Close: a buffer's Close gives no error.
unfoldable pub close_stream : MuxedStream → MuxedStream
close_stream s = close_read (close_write s).0

-- WriteHeaders; the flag is false for ErrStreamHeadersSent.
unfoldable pub put_headers : MuxedStream → List (Bytes × Bytes) → MuxedStream × Bool
put_headers s headers = elim s.write_headers [
  | some old ↦ (s, false)
  | none ↦ (record s { write_headers = some headers; headers_sent = false }, true)
]

-- receiveEOF, with whether the stream is now closed
unfoldable pub receive_eof : MuxedStream → MuxedStream × Bool
receive_eof s =
    (close_read (record s { received_eof = true }), s.write_eof && length s.write_buffer == 0)

pub data FrameReply : Type 0 where
  internal_error flow_control_error accepted : FrameReply
  end_of_stream : Bool → FrameReply

-- The write to the read buffer, none for its error
unfoldable pub stored : MuxedStream → Bytes → Option MuxedStream
stored s [] = some s
stored s (b ∷ bs) =
    if s.read_closed then none else some (record s { read_buffer = s.read_buffer ++ b ∷ bs })

unfoldable pub account : MuxedStream × Bool → MuxedStream × FrameReply
account (s, true) = (s, accepted)
account (s, false) = (s, flow_control_error)

unfoldable pub ended_by : MuxedStream × Bool → MuxedStream × FrameReply
ended_by (s, closed) = (s, end_of_stream closed)

-- receiveFrameData on the stream of the frame
unfoldable pub receive_frame_data : MuxedStream → Bytes → Bool → MuxedStream × FrameReply
receive_frame_data s bytes end_stream = elim (stored s bytes) [
  | none ↦ (s, internal_error)
  | some s' ↦
      if end_stream
      then ended_by (receive_eof s')
      else account (consume_receive_window s' (length bytes))
]

pub record StreamChunk : Type 0 where
  pub send_headers : Bool
  pub headers : Option (List (Bytes × Bytes))
  pub update : ℕ
  pub send_data : Bool
  pub eof : Bool
  pub buffer : Bytes

unfoldable pub get_chunk : MuxedStream → MuxedStream × StreamChunk
get_chunk s =
    let to_copy = min s.send_window (length s.write_buffer) in
    let eof = s.write_eof && leb (word (length s.write_buffer)) s.send_window in
    (
      record s {
        write_buffer = drop to_copy s.write_buffer;
        send_window = s.send_window - to_copy;
        receive_window = word (s.receive_window + s.window_update);
        window_update = 0;
        headers_sent = true;
        sent_eof = s.sent_eof || (not s.sent_eof && eof);
      },
      record {
        send_headers = not s.headers_sent;
        headers = s.write_headers;
        update = s.window_update;
        send_data = not s.sent_eof;
        eof = eof;
        buffer = take to_copy s.write_buffer;
      },
    )

-- nextDataFrame on the bytes that are left: the payload, what is then left, and endStream
unfoldable pub next_data_frame : ℕ → Bool → Bytes → Bytes × Bytes × Bool
next_data_frame frame_size eof left = (
  take (min frame_size (length left)) left,
  drop (min frame_size (length left)) left,
  eof && length (drop (min frame_size (length left)) left) == 0,
)

unfoldable pub and_frame :
    Bytes × Bool → Option (List (Bytes × Bool)) → Option (List (Bytes × Bool))
and_frame f none = none
and_frame f (some fs) = some (f ∷ fs)

-- The frames of the loop in writeStreamData, with fuel for its turns; none when that runs out.
unfoldable pub frames_from : ℕ → ℕ → Bool → Bytes → Option (List (Bytes × Bool))
frames_from zero frame_size eof left = none
frames_from (suc fuel) frame_size eof left =
    let (payload, rest, end_stream) = next_data_frame frame_size eof left in
    let more = frames_from fuel frame_size eof rest in
    and_frame (payload, end_stream) (if length rest == 0 then some [] else more)

unfoldable pub data_frames : ℕ → ℕ → StreamChunk → Option (List (Bytes × Bool))
data_frames fuel frame_size chunk =
    if chunk.send_data then frames_from fuel frame_size chunk.eof chunk.buffer else some []
