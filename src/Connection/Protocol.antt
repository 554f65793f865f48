-- ===== src/Connection/Protocol.antt =====
-- connection/protocol.go: Protocol, switchThreshold and getProtocol, and the rollout percentages of
-- edgediscovery/protocol.go. Names are ASCII; a fetch that fails is `none`.
use cloudflared.Common.{
  leb, if◌then◌else◌, ℕ, ◌+◌, ◌*◌, ◌%◌, ◌≡◌, ◌↔◌, Bool, true, false, ◌&&◌, Option, none, some, List,
  [], ◌∷◌, map, arith,
}
use cloudflared.Common.Int.{ℤ, pos, ltb_ℤ}
use cloudflared.Common.Bytes.{Bytes, str, bytes_eq}
use Prim.Native.Nat.{bit_xor}

-- `unknown` stands for every int64 that names no protocol. The zero value is `http2`.
pub data Protocol : Type 0 where
  http2 quic unknown : Protocol

pub Protocol-discrete : Discrete Protocol
Protocol-discrete = hlevel

abbrev pub protocol_eq : Protocol → Protocol → Bool
protocol_eq http2 http2 = true
protocol_eq quic quic = true
protocol_eq unknown unknown = true
protocol_eq _ _ = false

pub protocol_eq_iff : (p q : Protocol) → (protocol_eq p q ≡ true) ↔ (p ≡ q)
protocol_eq_iff p q = ground arith

-- The fallback protocol and whether there is one.
unfoldable pub fallback : Protocol → Protocol × Bool
fallback http2 = (http2, false)
fallback quic = (http2, true)
fallback unknown = (http2, false)

unfoldable pub string : Protocol → Bytes
string http2 = str "http2"
string quic = str "quic"
string unknown = str "unknown protocol"

-- ProtocolList, in order of precedence.
abbrev pub protocol_list : List Protocol
protocol_list = quic ∷ http2 ∷ []

pub record ProtocolPercent : Type 0 where
  pub protocol : Bytes
  pub percentage : ℤ

-- strings.ToLower on ASCII
unfoldable pub to_lower : Bytes → Bytes
to_lower = map (λ c. if leb b'A' c && leb c b'Z' then c + 32 else c)

unfoldable pub get_percentage : Bytes → List ProtocolPercent → ℤ
get_percentage protocol [] = pos 0
get_percentage protocol (p ∷ ps) =
    if bytes_eq (to_lower p.protocol) (to_lower protocol)
    then p.percentage
    else get_percentage protocol ps

-- hash/fnv, 32-bit FNV-1a: the state after one byte.
unfoldable pub fnv_byte : ℕ → ℕ → ℕ
fnv_byte h c = (bit_xor h c * 16777619) % 4294967296

unfoldable pub fnv_write : ℕ → Bytes → ℕ
unfolding fnv_byte
fnv_write h [] = h
fnv_write h (c ∷ s) = fnv_write (fnv_byte h c) s

unfoldable pub switch_threshold : Bytes → ℕ
switch_threshold account_tag = fnv_write 2166136261 account_tag % 100

-- What getProtocol gives: a protocol, the fetcher's error, or the panic of `protocolPool[0]`.
pub data Fetched : Type 0 where
  chosen : Protocol → Fetched
  fetch_error panics : Fetched

abbrev pub head_of : List Protocol → Fetched
head_of [] = panics
head_of (p ∷ ps) = chosen p

abbrev pub exceeds : List ProtocolPercent → ℤ → Protocol → Bool
exceeds percents threshold p = ltb_ℤ threshold (get_percentage (string p) percents)

-- The loop over the pool; the last argument is what follows the loop.
unfoldable pub first_exceeding : List ProtocolPercent → ℤ → List Protocol → Fetched → Fetched
first_exceeding percents threshold [] otherwise = otherwise
first_exceeding percents threshold (p ∷ ps) otherwise =
    if exceeds percents threshold p
    then chosen p
    else first_exceeding percents threshold ps otherwise

unfoldable pub get_protocol : List Protocol → Option (List ProtocolPercent) → ℤ → Fetched
unfolding first_exceeding
get_protocol pool none threshold = fetch_error
get_protocol pool (some percents) threshold = first_exceeding percents threshold pool (head_of pool)
