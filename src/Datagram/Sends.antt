-- ===== src/Datagram/Sends.antt =====
-- quic/datagram.go, quic/datagramv2.go: a series of sends, and their messages served at the other end.

-- What a series of sends puts on the wire, and which of them succeed
use cloudflared.Common.{All, ◌≡◌, refl, ap, ◌∙◌, Option, some, List, [], ◌∷◌, map}
use cloudflared.Common.Bytes.{Bytes}
use cloudflared.Datagram.Muxer.{
  Sent, payload_too_big, cannot_suffix_id, cannot_suffix_type, refused, sent, Selected, channel,
  Demuxed, delivered, serve_receive, serve_receive-delivered,
}

abbrev pub and_message : Sent → List Bytes → List Bytes
and_message (sent msg) rest = msg ∷ rest
and_message (refused msg) rest = rest
and_message payload_too_big rest = rest
and_message cannot_suffix_id rest = rest
and_message cannot_suffix_type rest = rest

abbrev pub and_sent {ℓ} : {A : Type ℓ} → Sent → A → List A → List A
and_sent (sent msg) x rest = x ∷ rest
and_sent (refused msg) x rest = rest
and_sent payload_too_big x rest = rest
and_sent cannot_suffix_id x rest = rest
and_sent cannot_suffix_type x rest = rest

module _ {ℓ} {A : Type ℓ} (send : A → Sent) where
  abbrev pub messages : List A → List Bytes
  messages [] = []
  messages (x ∷ xs) = and_message (send x) (messages xs)

  abbrev pub went : List A → List A
  went [] = []
  went (x ∷ xs) = and_sent (send x) x (went xs)

  pub each_went :
      (xs : List A) → All (λ (x : A). (msg : Bytes) × (send x ≡ sent msg)) xs → went xs ≡ xs
  each_went [] h = refl
  each_went (x ∷ xs) h = rw h.0.1 (ap (◌∷◌ x) (each_went xs h.1))

-- A message that arrives, with a receiver that takes it
abbrev pub received : Bytes → Option Bytes × Selected
received msg = (some msg, channel)

module _ {ℓ} {A : Type ℓ} (send : A → Sent) (demuxes : Selected → Bytes → Demuxed A) where
  one_arrives :
      (x : A) (xs : List A) (r : Sent)
      → ((msg : Bytes) → r ≡ sent msg → demuxes channel msg ≡ delivered x)
      → serve_receive demuxes (map received (messages send xs)) ≡ went send xs
      → serve_receive demuxes (map received (and_message r (messages send xs)))
        ≡ and_sent r x (went send xs)
  one_arrives x xs (sent msg) h rest =
      serve_receive-delivered demuxes msg x (map received (messages send xs)) (h msg refl)
      ∙ ap (◌∷◌ x) rest
  one_arrives x xs (refused msg) h rest = rest
  one_arrives x xs payload_too_big h rest = rest
  one_arrives x xs cannot_suffix_id h rest = rest
  one_arrives x xs cannot_suffix_type h rest = rest

  pub each_arrives :
      (xs : List A)
      → All (λ (x : A). (msg : Bytes) → send x ≡ sent msg → demuxes channel msg ≡ delivered x) xs
      → serve_receive demuxes (map received (messages send xs)) ≡ went send xs
  each_arrives [] h = unfold serve_receive in refl
  each_arrives (x ∷ xs) h = one_arrives x xs (send x) h.0 (each_arrives xs h.1)
