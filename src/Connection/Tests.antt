-- ===== src/Connection/Tests.antt =====
-- The selector theorems at the flags and lists that cloudflared meets.

use cloudflared.Common.{
  ℕ, ◌+◌, ◌-◌, ◌<◌, ◌≡◌, refl, ap, ◌≢◌, true, false, Option, none, some, List, [], ◌∷◌, arith,
}
use cloudflared.Connection.Transport.{IsPlain, deserialize_headers-serialize_headers}
use cloudflared.Connection.Headers.{
  Encoding, serialize_headers, split, deserialize_parts, and_headers, deserialize_pairs,
  deserialize_headers,
}
use cloudflared.Common.Tally.{times}
use cloudflared.Common.Int.{pos}
use cloudflared.Common.Bytes.{Bytes, str, bytes_eq}
use cloudflared.Connection.Protocol.{
  Protocol, http2, quic, unknown, string, protocol_list, ProtocolPercent, to_lower, get_percentage,
  fnv_byte, fnv_write, switch_threshold, chosen, get_protocol,
}
use cloudflared.Connection.Selector.{
  RemoteProtocolSelector, Selector, default, current, selector_fallback, new_protocol_selector,
}
use cloudflared.Connection.Choice.{run_current, run_current_safe}

abbrev half_quic : List ProtocolPercent
half_quic =
    record { protocol = str "HTTP2"; percentage = pos 100 }
    ∷ record { protocol = str "quic"; percentage = pos 50 }
    ∷ []

fnv_a : switch_threshold (str "a") ≡ 20
unfolding switch_threshold fnv_write fnv_byte
fnv_a = refl

half_quic_picks : get_protocol protocol_list (some half_quic) (pos 40) ≡ chosen quic
unfolding get_protocol get_percentage to_lower string bytes_eq
half_quic_picks = refl

abbrev stale : RemoteProtocolSelector
stale = record {
  current = http2;
  protocol_pool = protocol_list;
  switch_threshold = pos 40;
  refresh_after = 100;
  ttl = 60;
}

run_current_safe_example :
    (s' : Selector) × (run_current (default quic) ((5, none) ∷ []) ≡ some s')
    × ((later : ℕ) (answer : Option (List ProtocolPercent))
        → (t : Selector) × (p : Protocol) × (current s' later answer ≡ some (t, p)) × (p ≢ unknown))
    × ((selector_fallback s').1 ≡ true → selector_fallback s' ≡ (http2, true))
unfolding new_protocol_selector string bytes_eq
run_current_safe_example =
    run_current_safe (str "auto") (str "a") true false none 60 0 (default quic) ((5, none) ∷ [])
      refl

-- An encoding without delimiters
abbrev shift_up : Bytes → Bytes
shift_up [] = []
shift_up (b ∷ bs) = (b + 65) ∷ shift_up bs

abbrev shift_down : Bytes → Bytes
shift_down [] = []
shift_down (b ∷ bs) = (b - 65) ∷ shift_down bs

abbrev shifted : Encoding
shifted = record { encode = shift_up; decode = λ x. some (shift_down x) }

shift_down-shift_up : (x : Bytes) → shift_down (shift_up x) ≡ x
shift_down-shift_up [] = refl
shift_down-shift_up (b ∷ bs) = rw (shift_down-shift_up bs) (ap (λ (c : ℕ). c ∷ bs) (omega arith))

no_byte : (c : ℕ) (x : Bytes) → c < 65 → times c (shift_up x) ≡ 0
no_byte c [] h = refl
no_byte c (b ∷ bs) h = ground (arith, no_byte c bs h, h)

shifted-IsPlain : IsPlain shifted
shifted-IsPlain = record {
  decodes = λ x. ap some (shift_down-shift_up x);
  no_semicolon = λ x. no_byte 59 x (omega arith);
  no_colon = λ x. no_byte 58 x (omega arith);
}

abbrev headers : List (Bytes × List Bytes)
headers = (str "a:b;", str "" ∷ str ";:" ∷ []) ∷ (str "", str "key" ∷ []) ∷ []

deserialize_headers-serialize_headers_example :
    deserialize_headers shifted (serialize_headers shifted headers)
    ≡ some ((str "a:b;", str "") ∷ (str "a:b;", str ";:") ∷ (str "", str "key") ∷ [])
deserialize_headers-serialize_headers_example =
    deserialize_headers-serialize_headers shifted shifted-IsPlain headers

three_parts : deserialize_headers shifted (str "a:b:c") ≡ none
unfolding split deserialize_pairs deserialize_parts and_headers
three_parts = refl
