-- ===== src/Socks/RoundTrip.antt =====
-- socks/request.go: what sendReply writes, read as a request; their formats agree.

-- An address as its wire form keeps it: of a name no IP, an IPv4 address in four bytes.
use cloudflared.Common.{
  ◌==◌, if◌then◌else◌, Option-cases, length, length-append, length-drop, take-append, drop-append,
  ℕ, ◌+◌, ◌*◌, ◌/◌, ◌%◌, ◌<◌, ◌≡◌, refl, ap, ◌∙◌, subst, ◌≢◌, ◌⊎◌, inl, inr, true, not, none, some,
  [], ◌∷◌, ◌++◌, arith,
}
use cloudflared.Socks.Address.{
  with_port, read_port, read_host, read_addr_spec, with_dest, request_of, new_request, to16,
  address_body, message, write_message, send_reply,
}
use cloudflared.Common.Bytes.{Bytes}
use cloudflared.Access.Net.{to4, shortest}
use cloudflared.Socks.World.{AddrSpec, ok, wrote, World, ◌>>=◌, return, read, byte, write, bind_ok}
use native.Mathlib.Decide.{dec_lt}
use mathlib.Core.List.{append_assoc}

unfoldable pub wire_form : AddrSpec → AddrSpec
wire_form a =
    if not (length a.fqdn == 0) then record a { ip = [] } else record a { ip = shortest a.ip }

-- A name of at most 255 bytes or an IP of 4 or 16 bytes, and a port of 16 bits.
abbrev pub IsWritable : AddrSpec → Type 0
IsWritable a =
    (length a.fqdn < 256)
    × (a.port < 65536)
    × ((0 < length a.fqdn) ⊎ ((length a.ip ≡ 4) ⊎ (length a.ip ≡ 16)))

-- Reading what stands first
pub read-length :
    (bs rest : Bytes) (w : World)
    → read (length bs) (record w { input = bs ++ rest }) ≡ (ok bs, record w { input = rest })
unfolding read
read-length bs rest w =
    ground (arith, length-append bs rest, take-append bs rest, drop-append bs rest)

pub read-append :
    (n : ℕ) (bs rest : Bytes) (w : World)
    → length bs ≡ n
    → read n (record w { input = bs ++ rest }) ≡ (ok bs, record w { input = rest })
read-append n bs rest w e =
    subst (λ k. read k (record w { input = bs ++ rest }) ≡ (ok bs, record w { input = rest })) e
      (read-length bs rest w)

port_parts : (port : ℕ) → port / 256 * 256 + port % 256 ≡ port
port_parts port = omega arith

-- A port as the two bytes that end an address
abbrev pub port_bytes : ℕ → Bytes → Bytes
port_bytes port rest = (port / 256) ∷ (port % 256) ∷ rest

read_port_lem :
    (fqdn ip rest : Bytes) (port : ℕ) (w : World)
    → read_port fqdn ip (record w { input = port_bytes port rest })
      ≡ (ok (record { fqdn = fqdn; ip = ip; port = port }), record w { input = rest })
unfolding read_port return
read_port_lem fqdn ip rest port w =
    bind_ok (read 2) (λ port. return (with_port fqdn ip port))
      (read-append 2 ((port / 256) ∷ (port % 256) ∷ []) rest w refl)
    ∙ (λ i.
        (ok (record { fqdn = fqdn; ip = ip; port = port_parts port i }), record w { input = rest }))

read_ip4 :
    (ip rest : Bytes) (port : ℕ) (w : World)
    → length ip ≡ 4
    → read_host 1 (record w { input = ip ++ port_bytes port rest })
      ≡ (ok (record { fqdn = []; ip = ip; port = port }), record w { input = rest })
unfolding read_host
read_ip4 ip rest port w e =
    bind_ok (read 4) (read_port []) (read-append 4 ip (port_bytes port rest) w e)
    ∙ read_port_lem [] ip rest port w

read_ip16 :
    (ip rest : Bytes) (port : ℕ) (w : World)
    → length ip ≡ 16
    → read_host 4 (record w { input = ip ++ port_bytes port rest })
      ≡ (ok (record { fqdn = []; ip = ip; port = port }), record w { input = rest })
unfolding read_host
read_ip16 ip rest port w e =
    bind_ok (read 16) (read_port []) (read-append 16 ip (port_bytes port rest) w e)
    ∙ read_port_lem [] ip rest port w

read_name :
    (name rest : Bytes) (port : ℕ) (w : World)
    → read_host 3 (record w { input = length name ∷ (name ++ port_bytes port rest) })
      ≡ (ok (record { fqdn = name; ip = []; port = port }), record w { input = rest })
unfolding read_host
read_name name rest port w =
    bind_ok (read 1) (λ len. read (byte len 0) >>= λ fqdn. read_port fqdn [])
      (read-append 1 (length name ∷ []) (name ++ port_bytes port rest) w refl)
    ∙ (bind_ok (read (length name)) (λ fqdn. read_port fqdn [])
          (read-length name (port_bytes port rest) w)
        ∙ read_port_lem name [] rest port w)

pub request_read :
    (addr_type resp port : ℕ) (body rest : Bytes) (a : AddrSpec) (w : World)
    → read_host addr_type (record w { input = body ++ port_bytes port rest })
      ≡ (ok a, record w { input = rest })
    → new_request (record w { input = message resp (addr_type, body, port) ++ rest })
      ≡ (ok (with_dest resp a), record w { input = rest })
unfolding new_request request_of read_addr_spec message return
request_read addr_type resp port body rest a w h =
    let tail = (body ++ port_bytes port []) ++ rest in
    let e : tail ≡ body ++ port_bytes port rest = append_assoc body (port_bytes port []) rest in
    bind_ok (read 3) request_of (read-append 3 (5 ∷ resp ∷ 0 ∷ []) (addr_type ∷ tail) w refl)
    ∙ bind_ok read_addr_spec (λ dest. return (with_dest resp dest))
        (bind_ok (read 1) (λ t. read_host (byte t 0)) (read-append 1 (addr_type ∷ []) tail w refl)
          ∙ (ap (λ t. read_host addr_type (record w { input = t })) e ∙ h))

to4_shape : (ip four : Bytes) → to4 ip ≡ some four → (length four ≡ 4) × (shortest ip ≡ four)
unfolding to4
to4_shape ip four e = ground (arith, length-drop 12 ip)

no_to4 : (ip : Bytes) → to4 ip ≡ none → (length ip ≢ 4) × (shortest ip ≡ ip)
unfolding to4
no_to4 ip e = ground arith

empty_of_length : (bs : Bytes) → length bs ≡ 0 → bs ≡ []
empty_of_length [] e = refl
empty_of_length (b ∷ bs) e = absurd (omega arith)

module _ (a : AddrSpec) (h : IsWritable a) where
  name_parts :
      0 < length a.fqdn
      → (address_body (some a) ≡ some (3, length a.fqdn ∷ a.fqdn, a.port))
        × (record { fqdn = a.fqdn; ip = []; port = a.port } ≡ wire_form a)
  unfolding address_body wire_form
  name_parts pos = (ground arith, ground arith)

  ip4_parts :
      (four : Bytes)
      → length a.fqdn ≡ 0
      → to4 a.ip ≡ some four
      → (address_body (some a) ≡ some (1, four, a.port))
        × (record { fqdn = []; ip = four; port = a.port } ≡ wire_form a)
  unfolding address_body wire_form
  ip4_parts four none_given e =
      (ground arith, ground (arith, empty_of_length a.fqdn, to4_shape a.ip four e))

  ip16_parts :
      length a.fqdn ≡ 0
      → to4 a.ip ≡ none
      → length a.ip ≡ 16
      → (address_body (some a) ≡ some (4, a.ip, a.port))
        × (record { fqdn = []; ip = a.ip; port = a.port } ≡ wire_form a)
  unfolding address_body wire_form to16
  ip16_parts none_given e sixteen =
      (ground arith, ground (arith, empty_of_length a.fqdn, no_to4 a.ip e))

-- The parts of a writable address read back as its wire form.
pub body_read :
    (a : AddrSpec) (rest : Bytes) (w : World)
    → IsWritable a
    → (addr_type : ℕ) × (body : Bytes) × (address_body (some a) ≡ some (addr_type, body, a.port))
      × (read_host addr_type (record w { input = body ++ port_bytes a.port rest })
          ≡ (ok (wire_form a), record w { input = rest }))
body_read a rest w h = elim (dec_lt 0 (length a.fqdn)) [
  | yes named ↦ (
    3,
    length a.fqdn ∷ a.fqdn,
    (name_parts a h named).0,
    read_name a.fqdn rest a.port w
        ∙ ap (λ d. (ok d, record w { input = rest })) (name_parts a h named).1,
  )
  | no unnamed ↦ elim (Option-cases (to4 a.ip)) [
    | inr (four, e) ↦
        let parts = ip4_parts a h four (omega arith) e in
        (
          1,
          four,
          parts.0,
          read_ip4 four rest a.port w (to4_shape a.ip four e).0
              ∙ ap (λ d. (ok d, record w { input = rest })) parts.1,
        )
    | inl e ↦
        let sixteen : length a.ip ≡ 16 = ground (arith, no_to4 a.ip e) in
        let parts = ip16_parts a h (omega arith) e sixteen in
        (
          4,
          a.ip,
          parts.0,
          read_ip16 a.ip rest a.port w sixteen
              ∙ ap (λ d. (ok d, record w { input = rest })) parts.1,
        )
  ]
]

send_parts :
    (resp : ℕ) (a : AddrSpec) (parts : ℕ × Bytes × ℕ) (w : World)
    → address_body (some a) ≡ some parts
    → w.accepts w.log ≡ true
    → send_reply resp (some a) w ≡ (ok tt, record w { log = wrote (message resp parts) ∷ w.log })
unfolding send_reply write write_message
send_parts resp a parts w e ok_now = ground arith

-- Requests and replies have one format: a reply with an address that has a name of at most 255
-- bytes or an IP of 4 or 16 bytes, and a port of 16 bits, is written in one write, and what is
-- written, with anything after it, is read by NewRequest as the request whose command is the
-- reply's code and whose address is the wire form of the address (the name with no IP, or the IP,
-- an IPv4 address in four bytes), up to exactly the end of the reply.
pub new_request-send_reply :
    (resp : ℕ) (a : AddrSpec) (rest : Bytes) (w : World)
    → IsWritable a
    → w.accepts w.log ≡ true
    → (msg : Bytes) × (send_reply resp (some a) w ≡ (ok tt, record w { log = wrote msg ∷ w.log }))
      × (new_request (record w { input = msg ++ rest })
          ≡ (ok (with_dest resp (wire_form a)), record w { input = rest }))
new_request-send_reply resp a rest w h accepting =
    let (addr_type, body, parts, back) = body_read a rest w h in
    (
      message resp (addr_type, body, a.port),
      send_parts resp a (addr_type, body, a.port) w parts accepting,
      request_read addr_type resp a.port body rest (wire_form a) w back,
    )
