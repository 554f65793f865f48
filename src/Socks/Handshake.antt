-- ===== src/Socks/Handshake.antt =====
-- socks/*.go: a client that follows the protocol reaches the request handler.

-- Whether the client offers the method with no authentication.
use cloudflared.Common.{
  ◌==◌, if◌then◌else◌, length, ℕ, ◌≡◌, refl, sym, ap, ◌∙◌, subst, Bool, true, false, ◌||◌, Option,
  none, some, [], ◌∷◌, ◌++◌, arith,
}
use cloudflared.Socks.World.{
  AddrSpec, no_acceptable, ok, wrote, World, M, ◌>>=◌, ◌>>◌, fail, read, byte, write, ignore,
  bind_ok, bind_congr,
}
use cloudflared.Access.Policy.{Policy}
use cloudflared.Socks.Address.{read_host, with_dest, new_request, address_body, message}
use cloudflared.Socks.Auth.{
  no_auth, new_auth_handler, authenticate, read_methods, first_supported, authenticate_with,
  handle_auth,
}
use cloudflared.Socks.Server.{Network, handle, after_version, serve}
use cloudflared.Socks.RoundTrip.{
  wire_form, IsWritable, read-length, read-append, port_bytes, request_read, body_read,
}
use cloudflared.Common.Map.{nat_eq, lookup}
use cloudflared.Common.Bytes.{Bytes, bytes_eq_inst}
use mathlib.Core.Option.{some-injective}

abbrev pub offers_none : Bytes → Bool
offers_none [] = false
offers_none (m ∷ methods) = m == 0 || offers_none methods

first_supported-none :
    (methods : Bytes)
    → first_supported new_auth_handler methods
      ≡ (if offers_none methods then some no_auth else none)
unfolding first_supported new_auth_handler lookup
first_supported-none [] = refl
first_supported-none (m ∷ methods) = ground (arith, first_supported-none methods)

-- A client's greeting: the version, the number of methods, the methods
abbrev pub greeting : Bytes → Bytes → Bytes
greeting methods rest = 5 ∷ length methods ∷ (methods ++ rest)

-- The answer to the greeting of a client
unfoldable pub greeted : Bytes → M (Unit {0})
greeted methods =
    if offers_none methods
    then write (5 ∷ 0 ∷ [])
    else (do ignore (write (5 ∷ 255 ∷ [])); fail no_acceptable)

authenticate_with_first :
    (methods : Bytes)
    → authenticate_with (first_supported new_auth_handler methods) ≡ greeted methods
unfolding authenticate_with authenticate greeted
authenticate_with_first methods = ground (arith, first_supported-none methods)

read_methods_lem :
    (methods rest : Bytes) (w : World)
    → read_methods (record w { input = length methods ∷ (methods ++ rest) })
      ≡ (ok methods, record w { input = rest })
unfolding read_methods
read_methods_lem methods rest w =
    bind_ok (read 1) (λ n. read (byte n 0))
      (read-append 1 (length methods ∷ []) (methods ++ rest) w refl)
    ∙ read-length methods rest w

handle_auth-greeted :
    (methods rest : Bytes) (w : World)
    → handle_auth new_auth_handler (record w { input = length methods ∷ (methods ++ rest) })
      ≡ greeted methods (record w { input = rest })
unfolding handle_auth
handle_auth-greeted methods rest w =
    bind_ok read_methods (λ m. authenticate_with (first_supported new_auth_handler m))
      (read_methods_lem methods rest w)
    ∙ ap (λ (m : M (Unit {0})). m (record w { input = rest })) (authenticate_with_first methods)

module _ (net : Network) (policy : Option Policy) where
  unfoldable pub next_request : Unit {0} → M (Unit {0})
  next_request t = do req ← new_request; handle net policy req

  serve-greeting :
      (methods rest : Bytes) (w : World)
      → serve net new_auth_handler policy (record w { input = greeting methods rest })
        ≡ (greeted methods >>= next_request) (record w { input = rest })
  unfolding serve after_version next_request
  serve-greeting methods rest w =
      bind_ok (read 1) (after_version net new_auth_handler policy)
        (read-append 1 (5 ∷ []) (length methods ∷ (methods ++ rest)) w refl)
      ∙ bind_congr (handle_auth new_auth_handler) (greeted methods) next_request
          (record w { input = length methods ∷ (methods ++ rest) }) (record w { input = rest })
          (handle_auth-greeted methods rest w)

  greeted_accepts :
      (methods : Bytes) (w : World)
      → offers_none methods ≡ true
      → w.accepts w.log ≡ true
      → greeted methods w ≡ (ok tt, record w { log = wrote (5 ∷ 0 ∷ []) ∷ w.log })
  unfolding greeted write
  greeted_accepts methods w offered accepting = ground arith

  serve_parts :
      (methods rest : Bytes) (command addr_type : ℕ) (body : Bytes) (a : AddrSpec) (w : World)
      → offers_none methods ≡ true
      → w.accepts w.log ≡ true
      → read_host addr_type
          (record w { input = body ++ port_bytes a.port rest; log = wrote (5 ∷ 0 ∷ []) ∷ w.log })
        ≡ (ok (wire_form a), record w { input = rest; log = wrote (5 ∷ 0 ∷ []) ∷ w.log })
      → serve net new_auth_handler policy (record w {
        input = greeting methods (message command (addr_type, body, a.port) ++ rest);
      })
        ≡ handle net policy
            (with_dest command (wire_form a))
            (record w { input = rest; log = wrote (5 ∷ 0 ∷ []) ∷ w.log })
  unfolding next_request
  serve_parts methods rest command addr_type body a w offered accepting back =
      let msg = message command (addr_type, body, a.port) ++ rest in
      serve-greeting methods msg w
      ∙ (bind_ok (greeted methods) next_request
            (greeted_accepts methods (record w { input = msg }) offered accepting)
          ∙ bind_ok new_request (λ req. handle net policy req)
              (request_read addr_type command a.port body rest (wire_form a)
                (record w { log = wrote (5 ∷ 0 ∷ []) ∷ w.log }) back))

  -- A client that greets, offers to go without authentication among its methods, and sends a
  -- request for an address that the wire can hold, is answered that no authentication is needed,
  -- and its request, with the address in its wire form, reaches the request handler, which finds
  -- the bytes after the request still to be read.
  pub serve_handles :
      (methods rest : Bytes) (command : ℕ) (a : AddrSpec) (parts : ℕ × Bytes × ℕ) (w : World)
      → offers_none methods ≡ true
      → IsWritable a
      → address_body (some a) ≡ some parts
      → w.accepts w.log ≡ true
      → serve net new_auth_handler policy
          (record w { input = greeting methods (message command parts ++ rest) })
        ≡ handle net policy
            (with_dest command (wire_form a))
            (record w { input = rest; log = wrote (5 ∷ 0 ∷ []) ∷ w.log })
  serve_handles methods rest command a parts w offered writable e accepting =
      let (addr_type, body, e2, back) =
        body_read a rest (record w { log = wrote (5 ∷ 0 ∷ []) ∷ w.log }) writable in
      let same : (addr_type, body, a.port) ≡ parts = some-injective _ _ (sym e2 ∙ e) in
      subst
        (λ r.
          serve net new_auth_handler policy
            (record w { input = greeting methods (message command r ++ rest) })
          ≡ handle net policy (with_dest command (wire_form a))
              (record w { input = rest; log = wrote (5 ∷ 0 ∷ []) ∷ w.log }))
        same (serve_parts methods rest command addr_type body a w offered accepting back)
