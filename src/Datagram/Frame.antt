-- ===== src/Datagram/Frame.antt =====
-- quic/param_unix.go, quic/param_windows.go, quic/datagram.go, quic/datagramv2.go: what is appended to
-- a payload, and how it is taken off again. Slices are lists of bytes.

use cloudflared.Common.{
  ltb, if◌then◌else◌, length, take, drop, length-append, take-append, drop-append, ℕ, ◌+◌, ◌-◌, ◌≡◌,
  false, Option, none, some, List, [], ◌∷◌, ◌++◌, arith,
}
use cloudflared.Common.Bytes.{Bytes}

-- The build: param_windows.go or param_unix.go.
pub data Platform : Type 0 where
  on_windows on_unix : Platform

abbrev pub session_id_len : ℕ
session_id_len = 16

abbrev pub type_id_len : ℕ
type_id_len = 1

unfoldable pub max_datagram_frame_size : Platform → ℕ
max_datagram_frame_size on_windows = 1220
max_datagram_frame_size on_unix = 1350

unfoldable pub max_datagram_payload_size : Platform → ℕ
unfolding max_datagram_frame_size
max_datagram_payload_size on_windows =
    max_datagram_frame_size on_windows - 3 - session_id_len - type_id_len
max_datagram_payload_size on_unix = 1280

unfoldable pub suffix_metadata : Platform → Bytes → Bytes → Option Bytes
suffix_metadata p payload metadata =
    if ltb (max_datagram_frame_size p) (length payload + length metadata)
    then none
    else some (payload ++ metadata)

-- SuffixSessionID; a UUID is its bytes.
unfoldable pub suffix_session_id : Platform → Bytes → Bytes → Option Bytes
suffix_session_id p session_id b = suffix_metadata p b session_id

-- SuffixType
unfoldable pub suffix_type : Platform → Bytes → ℕ → Option Bytes
suffix_type p b datagram_type =
    if ltb (max_datagram_frame_size p) (length b + type_id_len)
    then none
    else some (b ++ datagram_type ∷ [])

-- extractSessionID, with uuid.FromBytes as an argument: the id and the payload.
unfoldable pub extract_session_id : (Bytes → Option Bytes) → Bytes → Option (Bytes × Bytes)
extract_session_id from_bytes b =
    if ltb (length b) session_id_len
    then none
    else elim (from_bytes (drop (length b - session_id_len) b)) [
      | none ↦ none
      | some session_id ↦ some (session_id, take (length b - session_id_len) b)
    ]

-- uuid.FromBytes accepts sixteen bytes.
abbrev pub AcceptsSixteen : (Bytes → Option Bytes) → Type 0
AcceptsSixteen from_bytes = (b : Bytes) → length b ≡ 16 → from_bytes b ≡ some b

-- Cutting a suffix off a list by its length.
pub drop_suffix {ℓ} :
    {A : Type ℓ} (xs ys : List A) (n : ℕ)
    → length ys ≡ n
    → drop (length (xs ++ ys) - n) (xs ++ ys) ≡ ys
drop_suffix xs ys n e =
    let cut : length (xs ++ ys) - n ≡ length xs = omega (arith, length-append xs ys, e) in
    rw (cut, drop-append xs ys)

pub take_suffix {ℓ} :
    {A : Type ℓ} (xs ys : List A) (n : ℕ)
    → length ys ≡ n
    → take (length (xs ++ ys) - n) (xs ++ ys) ≡ xs
take_suffix xs ys n e =
    let cut : length (xs ++ ys) - n ≡ length xs = omega (arith, length-append xs ys, e) in
    rw (cut, take-append xs ys)

pub extract_session_id-append :
    (from_bytes : Bytes → Option Bytes) (payload session_id : Bytes)
    → AcceptsSixteen from_bytes
    → length session_id ≡ 16
    → extract_session_id from_bytes (payload ++ session_id) ≡ some (session_id, payload)
unfolding extract_session_id
extract_session_id-append from_bytes payload session_id ok e =
    let long : ltb (length (payload ++ session_id)) 16 ≡ false =
      ground (arith, length-append payload session_id) in
    rw (
      long,
      drop_suffix payload session_id 16 e,
      ok session_id e,
      take_suffix payload session_id session_id_len e,
    )
