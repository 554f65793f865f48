-- ===== src/Connection/Headers.antt =====
-- connection/header.go: the headers of a request or a response as one header of the tunnel. The
-- encoding is base64 of its library, an argument; a map of headers is listed in its iteration order.

use cloudflared.Common.{◌==◌, if◌then◌else◌, ℕ, Bool, ◌||◌, Option, none, some, List, [], ◌∷◌, ◌++◌}
use cloudflared.Common.Bytes.{Bytes, str, bytes_eq, has_prefix}

pub record Encoding : Type 0 where
  pub encode : Bytes → Bytes
  pub decode : Bytes → Option Bytes

-- Either delimiter comes with its pair; the first pair has none before it.
unfoldable pub write_header : Encoding → Bytes → Bytes → Bytes → Bytes
write_header enc [] name value = enc.encode name ++ 58 ∷ enc.encode value
write_header enc (b ∷ buf) name value = (b ∷ buf) ++ 59 ∷ (enc.encode name ++ 58 ∷ enc.encode value)

abbrev pub write_values : Encoding → Bytes → Bytes → List Bytes → Bytes
write_values enc buf name [] = buf
write_values enc buf name (value ∷ vs) = write_values enc (write_header enc buf name value) name vs

abbrev pub write_headers : Encoding → Bytes → List (Bytes × List Bytes) → Bytes
write_headers enc buf [] = buf
write_headers enc buf ((name, vs) ∷ hs) = write_headers enc (write_values enc buf name vs) hs

abbrev pub serialize_headers : Encoding → List (Bytes × List Bytes) → Bytes
serialize_headers enc hs = write_headers enc [] hs

abbrev pub cons_head : ℕ → List Bytes → List Bytes
cons_head b [] = (b ∷ []) ∷ []
cons_head b (w ∷ ws) = (b ∷ w) ∷ ws

-- strings.Split with a separator of one byte
unfoldable pub split : ℕ → Bytes → List Bytes
split c [] = [] ∷ []
split c (b ∷ bs) = let rest = split c bs in if b == c then [] ∷ rest else cons_head b rest

unfoldable pub header_of : Option Bytes → Option Bytes → Option (Bytes × Bytes)
header_of none value = none
header_of (some name) none = none
header_of (some name) (some value) = some (name, value)

-- A pair has two parts.
unfoldable pub deserialize_parts : Encoding → List Bytes → Option (Bytes × Bytes)
deserialize_parts enc [] = none
deserialize_parts enc (name ∷ []) = none
deserialize_parts enc (name ∷ value ∷ []) = header_of (enc.decode name) (enc.decode value)
deserialize_parts enc (name ∷ value ∷ part ∷ parts) = none

unfoldable pub and_headers :
    Option (Bytes × Bytes) → Option (List (Bytes × Bytes)) → Option (List (Bytes × Bytes))
and_headers none hs = none
and_headers (some h) none = none
and_headers (some h) (some hs) = some (h ∷ hs)

unfoldable pub deserialize_pairs : Encoding → List Bytes → Option (List (Bytes × Bytes))
deserialize_pairs enc [] = some []
deserialize_pairs enc ([] ∷ ps) = deserialize_pairs enc ps
deserialize_pairs enc ((b ∷ p) ∷ ps) =
    and_headers (deserialize_parts enc (split 58 (b ∷ p))) (deserialize_pairs enc ps)

abbrev pub deserialize_headers : Encoding → Bytes → Option (List (Bytes × Bytes))
deserialize_headers enc serialized = deserialize_pairs enc (split 59 serialized)

abbrev pub is_control_response_header : Bytes → Bool
is_control_response_header name =
    has_prefix name (str ":")
    || has_prefix name (str "cf-int-")
    || has_prefix name (str "cf-cloudflared-")

abbrev pub is_websocket_client_header : Bytes → Bool
is_websocket_client_header name =
    bytes_eq name (str "sec-websocket-accept")
    || bytes_eq name (str "connection")
    || bytes_eq name (str "upgrade")
