-- ===== src/Socks/Address.antt =====
-- socks/request.go: requests, and addresses as they are read and written.

use cloudflared.Common.{
  ◌==◌, if◌then◌else◌, length, ℕ, ◌+◌, ◌*◌, ◌/◌, ◌%◌, not, Option, none, some, [], ◌∷◌, ◌++◌,
}
use cloudflared.Common.Bytes.{Bytes}
use cloudflared.Access.Net.{to4}
use cloudflared.Socks.World.{
  AddrSpec, bad_address, bad_request_version, unformatted, M, ◌>>=◌, return, fail, read, byte,
  write,
}

pub record Request : Type 0 where
  pub version : ℕ
  pub command : ℕ
  pub dest_addr : AddrSpec

-- The port's two bytes with a shift and an or, which are a sum
abbrev pub with_port : Bytes → Bytes → Bytes → AddrSpec
with_port fqdn ip port = record { fqdn = fqdn; ip = ip; port = byte port 0 * 256 + byte port 1 }

unfoldable pub read_port : Bytes → Bytes → M AddrSpec
read_port fqdn ip = do port ← read 2; return (with_port fqdn ip port)

unfoldable pub read_host : ℕ → M AddrSpec
read_host addr_type =
    if addr_type == 1
    then (do ip ← read 4; read_port [] ip)
    else if addr_type == 4
    then (do ip ← read 16; read_port [] ip)
    else if addr_type == 3
    then (do addr_len ← read 1; fqdn ← read (byte addr_len 0); read_port fqdn [])
    else fail bad_address

-- readAddrSpec
unfoldable pub read_addr_spec : M AddrSpec
read_addr_spec = do addr_type ← read 1; read_host (byte addr_type 0)

abbrev pub with_dest : ℕ → AddrSpec → Request
with_dest command dest = record { version = 5; command = command; dest_addr = dest }

unfoldable pub request_of : Bytes → M Request
request_of header =
    if byte header 0 == 5
    then (do dest ← read_addr_spec; return (with_dest (byte header 1) dest))
    else fail (bad_request_version (byte header 0))

unfoldable pub new_request : M Request
new_request = do header ← read 3; request_of header

-- IP.To16 of a byte slice
unfoldable pub to16 : Bytes → Option Bytes
to16 ip =
    if length ip == 4
    then some (0 ∷ 0 ∷ 0 ∷ 0 ∷ 0 ∷ 0 ∷ 0 ∷ 0 ∷ 0 ∷ 0 ∷ 255 ∷ 255 ∷ ip)
    else if length ip == 16
    then some ip
    else none

-- The type, the body and the port of a reply's address
unfoldable pub address_body : Option AddrSpec → Option (ℕ × Bytes × ℕ)
address_body none = some (1, 0 ∷ 0 ∷ 0 ∷ 0 ∷ [], 0)
address_body (some a) =
    if not (length a.fqdn == 0)
    then some (3, (length a.fqdn % 256) ∷ a.fqdn, a.port % 65536)
    else elim (to4 a.ip) [
      | some four ↦ some (1, four, a.port % 65536)
      | none ↦ elim (to16 a.ip) [ some sixteen ↦ some (4, sixteen, a.port % 65536) | none ↦ none ]
    ]

unfoldable pub message : ℕ → ℕ × Bytes × ℕ → Bytes
message resp (addr_type, body, port) =
    5 ∷ resp ∷ 0 ∷ addr_type ∷ (body ++ (port / 256) ∷ (port % 256) ∷ [])

unfoldable pub write_message : ℕ → Option (ℕ × Bytes × ℕ) → M (Unit {0})
write_message resp none = fail unformatted
write_message resp (some parts) = write (message resp parts)

-- sendReply; a nil address is none.
unfoldable pub send_reply : ℕ → Option AddrSpec → M (Unit {0})
send_reply resp addr = write_message resp (address_body addr)

-- AddrSpec.Address; `join` is net.JoinHostPort with strconv.Itoa, ip_string is IP.String.
unfoldable pub address : (Bytes → Bytes) → (Bytes → ℕ → Bytes) → AddrSpec → Bytes
address ip_string join a =
    if not (length a.ip == 0) then join (ip_string a.ip) a.port else join a.fqdn a.port
