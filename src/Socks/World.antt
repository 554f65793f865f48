-- ===== src/Socks/World.antt =====
-- What the SOCKS server reads and does, in order. Each operation returns its result or its error
-- with the world after it. The buffered reader is the bytes that are still to come; a nil IP is [].

use cloudflared.Common.{
  leb, if◌then◌else◌, length, get_elem?, take, drop, ℕ, ◌≡◌, refl, ap, Bool, Option, none, some,
  List, [], ◌∷◌,
}
use cloudflared.Common.Bytes.{Bytes}
use cloudflared.Access.Policy.{Rule}

pub record AddrSpec : Type 0 where
  pub fqdn : Bytes
  pub ip : Bytes
  pub port : ℕ

pub data Error : Type 0 where
  eof write_failed no_acceptable auth_failed bad_address unresolved panicked : Error
  denied : Option Rule → Error
  bad_version bad_command bad_request_version bad_auth_version : ℕ → Error
  unformatted : Error
  connect_failed copy_failed : Bytes → Error

pub data Result {ℓ} (A : Type ℓ) : Type ℓ where
  ok : A → Result A
  err : Error → Result A

-- `dialed` has the address that was given to Dial, `proxied` the bytes left for the target.
pub data Event : Type 0 where
  wrote wrote_badly proxied : Bytes → Event
  resolved : Bytes → Event
  dialed : Bytes → Event
  closed : Event

-- The events so far, the last one first; whether the next write succeeds may depend on them.
pub record World : Type 0 where
  pub input : Bytes
  pub log : List Event
  pub accepts : List Event → Bool

abbrev pub M : Type 0 → Type 0
M A = World → Result A × World

infixl 5 ◌>>=◌ ◌>>◌
unfoldable pub ◌>>=◌ : {A B : Type 0} → M A → (A → M B) → M B
◌>>=◌ m f w = let (r, w') = m w in elim r [ ok a ↦ f a w' | err e ↦ (err e, w') ]

abbrev pub ◌>>◌ : {A B : Type 0} → M A → M B → M B
m >> k = m >>= λ _. k

unfoldable pub return : {A : Type 0} → A → M A
return a w = (ok a, w)

unfoldable pub fail : {A : Type 0} → Error → M A
fail e w = (err e, w)

-- io.ReadAtLeast of a whole buffer of n bytes; reading a byte is n = 1.
unfoldable pub read : ℕ → M Bytes
read n w =
    if leb n (length w.input)
    then (ok (take n w.input), record w { input = drop n w.input })
    else (err eof, record w { input = [] })

-- The byte at a place of what was read.
abbrev pub byte : Bytes → ℕ → ℕ
byte bs i = elim (get_elem? bs i) [ none ↦ 0 | some b ↦ b ]

unfoldable pub write : Bytes → M (Unit {0})
write bs w =
    if w.accepts w.log
    then (ok tt, record w { log = wrote bs ∷ w.log })
    else (err write_failed, record w { log = wrote_badly bs ∷ w.log })

-- The result of m is dropped, `_ = m`.
unfoldable pub ignore : {A : Type 0} → M A → M (Unit {0})
ignore m w = (ok tt, (m w).1)

-- A step that succeeds hands its result on.
pub bind_ok :
    {A B : Type 0} (m : M A) (f : A → M B) {w w' : World} {a : A}
    → m w ≡ (ok a, w')
    → (m >>= f) w ≡ f a w'
unfolding ◌>>=◌
bind_ok {A} {B} m f e =
    ap
      (λ (p : Result A × World). elim p.0 as (λ _. Result B × World) [
        | ok a ↦ f a p.1
        | err e ↦ (err e, p.1)
      ])
      e

inversion_at :
    {A B : Type 0} (r : Result A) (f : A → M B) (w : World) {b : B}
    → (elim r as (λ _. Result B × World) [ ok a ↦ f a w | err e ↦ (err e, w) ]).0 ≡ ok b
    → (a : A) × (r ≡ ok a) × ((f a w).0 ≡ ok b)
inversion_at (ok a) f w h = (a, refl, h)
inversion_at (err e) f w h = cc

-- A chain that gives its result made each of its steps.
pub bind_inversion :
    {A B : Type 0} (m : M A) (f : A → M B) (w : World) {b : B}
    → ((m >>= f) w).0 ≡ ok b
    → (a : A) × (w' : World) × ((m w).0 ≡ ok a) × ((f a w').0 ≡ ok b)
unfolding ◌>>=◌
bind_inversion m f w h = let (a, e1, e2) = inversion_at (m w).0 f (m w).1 h in (a, (m w).1, e1, e2)

abbrev pub result_or : {A : Type 0} → A → Result A → A
result_or a (ok b) = b
result_or a (err e) = a

-- Steps with one outcome may stand for one another.
pub bind_congr :
    {A B : Type 0} (m n : M A) (f : A → M B) (w w' : World)
    → m w ≡ n w'
    → (m >>= f) w ≡ (n >>= f) w'
unfolding ◌>>=◌
bind_congr {A} {B} m n f w w' e =
    ap
      (λ (p : Result A × World). elim p.0 as (λ _. Result B × World) [
        | ok a ↦ f a p.1
        | err e ↦ (err e, p.1)
      ])
      e
