-- ===== src/Datagram/Muxer.antt =====
-- quic/datagram.go: DatagramMuxer, the first version of the datagrams. What the connection answers to
-- SendMessage, and which case of a `select` goes ahead, are arguments.

use cloudflared.Common.{
  ltb, if◌then◌else◌, length, ◌≡◌, ap, Bool, Option, none, some, List, [], ◌∷◌,
}
use cloudflared.Common.Bytes.{Bytes}
use cloudflared.Datagram.Frame.{
  Platform, max_datagram_payload_size, suffix_session_id, extract_session_id,
}

-- packet.Session
pub record Session : Type 0 where
  pub id : Bytes
  pub payload : Bytes

-- How a send ends; `sent` and `refused` show the message given to SendMessage.
pub data Sent : Type 0 where
  payload_too_big cannot_suffix_id cannot_suffix_type : Sent
  refused sent : Bytes → Sent

unfoldable pub send_message : (Bytes → Bool) → Bytes → Sent
send_message accepts msg = if accepts msg then sent msg else refused msg

unfoldable pub send_to_session : Platform → (Bytes → Bool) → Session → Sent
send_to_session p accepts s =
    if ltb (max_datagram_payload_size p) (length s.payload)
    then payload_too_big
    else elim (suffix_session_id p s.id s.payload) [
      | none ↦ cannot_suffix_id
      | some msg ↦ send_message accepts msg
    ]

-- Which case of the `select` on the channel and on ctx.Done() goes ahead.
pub data Selected : Type 0 where
  channel ctx_canceled ctx_deadline : Selected

-- How the demultiplexing of a message ends: a value of type A on the channel, or an error.
pub data Demuxed {ℓ} (A : Type ℓ) : Type ℓ where
  delivered : A → Demuxed A
  canceled deadline_exceeded malformed : Demuxed A

unfoldable pub deliver {ℓ} : {A : Type ℓ} → Selected → A → Demuxed A
deliver channel x = delivered x
deliver ctx_canceled x = canceled
deliver ctx_deadline x = deadline_exceeded

unfoldable pub demux : (Bytes → Option Bytes) → Selected → Bytes → Demuxed Session
demux from_bytes selected msg = elim (extract_session_id from_bytes msg) [
  | none ↦ malformed
  | some (session_id, payload) ↦ deliver selected (record { id = session_id; payload = payload })
]

-- What one turn of the loop adds to what the later turns deliver: other errors of demux than
-- context.Canceled are logged.
unfoldable pub after_demux {ℓ} : {A : Type ℓ} → Demuxed A → List A → List A
after_demux (delivered x) rest = x ∷ rest
after_demux canceled rest = []
after_demux deadline_exceeded rest = rest
after_demux malformed rest = rest

-- The loop of ServeReceive on what ReceiveMessage gives, `none` being its error: what is delivered.
module _ {ℓ} {A : Type ℓ} (demuxes : Selected → Bytes → Demuxed A) where
  unfoldable pub serve_receive : List (Option Bytes × Selected) → List A
  serve_receive [] = []
  serve_receive ((none, selected) ∷ msgs) = []
  serve_receive ((some msg, selected) ∷ msgs) =
      after_demux (demuxes selected msg) (serve_receive msgs)

  pub serve_receive-delivered :
      (msg : Bytes) (x : A) (msgs : List (Option Bytes × Selected))
      → demuxes channel msg ≡ delivered x
      → serve_receive ((some msg, channel) ∷ msgs) ≡ x ∷ serve_receive msgs
  unfolding serve_receive after_demux
  serve_receive-delivered msg x msgs e =
      ap (λ (d : Demuxed A). after_demux d (serve_receive msgs)) e
