-- ===== src/Supervisor/AddrFallback.antt =====
-- supervisor/tunnel.go: ipAddrFallback, which counts the connectivity errors of each connection.

use cloudflared.Common.{
  leb, ◌==◌, if◌then◌else◌, ℕ, suc, ◌+◌, ◌%◌, ◌<◌, ◌≡◌, refl, sym, ap, ◌∙◌, Bool, true, false, ◌&&◌,
  Option, none, some, List, [], ◌∷◌, arith,
}
use cloudflared.Common.Map.{nat_eq, lookup, insert, lookup-insert}
use cloudflared.Supervisor.Errors.{EdgeError, dup_conn_register, idle_timeout, dial, edge_quic_dial}
use native.Mathlib.Nat.{mod-lt, mod_self, mod-eq_of_lt, mod-add-mod, add-zero}
use mathlib.Core.Path.{ap₂}

pub record IpAddrFallback : Type 0 where
  pub retries_by_conn_index : List (ℕ × ℕ)
  pub max_retries : ℕ

unfoldable pub new_ip_addr_fallback : ℕ → IpAddrFallback
new_ip_addr_fallback max = record { retries_by_conn_index = []; max_retries = max }

abbrev pub or_zero : Option ℕ → ℕ
or_zero none = 0
or_zero (some n) = n

-- `f.retriesByConnIndex[connIndex]`: a key that is missing reads 0.
unfoldable pub retries_of : IpAddrFallback → ℕ → ℕ
retries_of f conn = or_zero (lookup conn f.retries_by_conn_index)

-- The branch of a network problem, on a uint8 counter.
unfoldable pub connectivity_error : IpAddrFallback → ℕ → IpAddrFallback × (Bool × Option Bool)
unfolding retries_of
connectivity_error f conn =
    if leb f.max_retries (retries_of f conn)
    then (
      record f { retries_by_conn_index = insert conn 0 f.retries_by_conn_index },
      (true, some true),
    )
    else (
      record f {
        retries_by_conn_index = insert conn ((retries_of f conn + 1) % 256) f.retries_by_conn_index;
      },
      (true, some false),
    )

-- Whether a new address is needed, and the ConnectivityError if it is one. An error of `none` is nil.
unfoldable pub should_get_new_address :
    IpAddrFallback → ℕ → Option EdgeError → IpAddrFallback × (Bool × Option Bool)
unfolding connectivity_error
should_get_new_address f conn (some dup_conn_register) = (f, (true, none))
should_get_new_address f conn (some idle_timeout) = (f, (true, none))
should_get_new_address f conn (some dial) = connectivity_error f conn
should_get_new_address f conn (some (edge_quic_dial e)) = connectivity_error f conn
should_get_new_address f conn _ = (f, (false, none))

-- Whether an error counts as a connectivity error.
abbrev pub is_connectivity : Option EdgeError → Bool
is_connectivity (some dial) = true
is_connectivity (some (edge_quic_dial e)) = true
is_connectivity _ = false

abbrev next_count : IpAddrFallback → ℕ → ℕ
next_count f conn = if leb f.max_retries (retries_of f conn) then 0 else retries_of f conn + 1

connectivity_error-retries :
    (f : IpAddrFallback) (conn other : ℕ)
    → f.max_retries < 256
    → (retries_of (connectivity_error f conn).0 other
        ≡ (if conn == other then next_count f conn else retries_of f other))
      × ((connectivity_error f conn).0.max_retries ≡ f.max_retries)
unfolding connectivity_error
connectivity_error-retries f conn other small =
    let reset = lookup-insert conn other 0 f.retries_by_conn_index in
    let more = lookup-insert conn other ((retries_of f conn + 1) % 256) f.retries_by_conn_index in
    ground (arith, reset, more)

should_get_new_address-retries :
    (f : IpAddrFallback) (conn other : ℕ) (e : Option EdgeError)
    → f.max_retries < 256
    → let f' = (should_get_new_address f conn e).0 in
      (retries_of f' other
        ≡ (if is_connectivity e && conn == other then next_count f conn else retries_of f other))
      × (f'.max_retries ≡ f.max_retries)
unfolding should_get_new_address
should_get_new_address-retries f conn other none small = (refl, refl)
should_get_new_address-retries f conn other (some dial) small =
    connectivity_error-retries f conn other small
should_get_new_address-retries f conn other (some (edge_quic_dial e)) small =
    connectivity_error-retries f conn other small
should_get_new_address-retries f conn other (some _) small = (refl, refl)

-- The errors of all connections in the order in which they are handled, and how many of them are
-- connectivity errors of one connection.
pub run_errors : IpAddrFallback → List (ℕ × Option EdgeError) → IpAddrFallback
run_errors f [] = f
run_errors f ((conn, e) ∷ rest) = run_errors (should_get_new_address f conn e).0 rest

unfoldable pub connectivity_errors : ℕ → List (ℕ × Option EdgeError) → ℕ
connectivity_errors conn [] = 0
connectivity_errors conn ((c, e) ∷ rest) =
    connectivity_errors conn rest + (if is_connectivity e && c == conn then 1 else 0)

wrap_step : (r m : ℕ) → r < suc m → (r + 1) % suc m ≡ (if leb m r then 0 else r + 1)
wrap_step r m h = ground (arith, mod_self (suc m), mod-eq_of_lt {n = r + 1} {m = suc m})

mod_step : (n m : ℕ) → (n + 1) % suc m ≡ (if leb m (n % suc m) then 0 else n % suc m + 1)
mod_step n m = sym (mod-add-mod n (suc m) 1) ∙ wrap_step (n % suc m) m (mod-lt n (omega arith))

regroup : (n k t : ℕ) → n + k + t ≡ n + (t + k)
regroup n k t = omega arith

run_errors-retries :
    (f : IpAddrFallback) (conn n : ℕ) (errors : List (ℕ × Option EdgeError))
    → f.max_retries < 256
    → retries_of f conn ≡ n % suc f.max_retries
    → (retries_of (run_errors f errors) conn
        ≡ (n + connectivity_errors conn errors) % suc f.max_retries)
      × ((run_errors f errors).max_retries ≡ f.max_retries)
unfolding run_errors connectivity_errors
run_errors-retries f conn n [] small e =
    (e ∙ ap (λ (k : ℕ). k % suc f.max_retries) (omega arith), refl)
run_errors-retries f conn n ((c, x) ∷ errors) small e =
    let inc : ℕ = if is_connectivity x && c == conn then 1 else 0 in
    let f' : IpAddrFallback = (should_get_new_address f c x).0 in
    let (counted, same) = should_get_new_address-retries f c conn x small in
    let now : retries_of f' conn ≡ (n + inc) % suc f.max_retries = ground (
      arith,
      counted,
      mod_step n f.max_retries,
      ap (λ (k : ℕ). k % suc f.max_retries) (add-zero n),
    ) in
    let (later, still) =
      run_errors-retries f' conn (n + inc) errors (rw same small) (rw same now) in
    (
      later ∙ ap₂ (λ (k m : ℕ). k % suc m) (regroup n inc (connectivity_errors conn errors)) same,
      still ∙ same,
    )

fresh-retries :
    (max conn : ℕ) (errors : List (ℕ × Option EdgeError))
    → max < 256
    → let f = run_errors (new_ip_addr_fallback max) errors in
      (f.max_retries ≡ max) × (retries_of f conn ≡ connectivity_errors conn errors % suc max)
unfolding new_ip_addr_fallback
fresh-retries max conn errors small =
    let fresh : IpAddrFallback = record { retries_by_conn_index = []; max_retries = max } in
    let (counted, same) =
      run_errors-retries fresh conn 0 errors small (unfold retries_of lookup in omega arith) in
    (same, counted ∙ ap (λ (k : ℕ). k % suc max) (omega arith))

connectivity_error-reports :
    (f : IpAddrFallback) (conn : ℕ) (e : EdgeError)
    → is_connectivity (some e) ≡ true
    → (should_get_new_address f conn (some e)).1
      ≡ (true, some (leb f.max_retries (retries_of f conn)))
unfolding should_get_new_address
connectivity_error-reports f conn dial kind = ground arith
connectivity_error-reports f conn (edge_quic_dial e) kind = ground arith
connectivity_error-reports f conn _ kind = cc

-- However the errors of the connections interleave, a connection's connectivity errors are counted
-- apart from the others': its next one reports that the maximum is reached exactly when the errors
-- before it number one less than a multiple of MaxRetries + 1; and each asks for a new address.
pub connectivity_error_reports :
    (max conn : ℕ) (errors : List (ℕ × Option EdgeError)) (e : EdgeError)
    → max < 256
    → is_connectivity (some e) ≡ true
    → (should_get_new_address (run_errors (new_ip_addr_fallback max) errors) conn (some e)).1
      ≡ (true, some (leb max (connectivity_errors conn errors % suc max)))
connectivity_error_reports max conn errors e small kind =
    let fresh : IpAddrFallback = new_ip_addr_fallback max in
    let f : IpAddrFallback = run_errors fresh errors in
    let (same, counted) = fresh-retries max conn errors small in
    connectivity_error-reports f conn e kind
    ∙ ap₂ (λ (m k : ℕ). (true, some (leb m k))) same counted
