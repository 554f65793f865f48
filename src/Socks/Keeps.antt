-- ===== src/Socks/Keeps.antt =====
-- The rules by which a chain of steps dials within a test.

use cloudflared.Common.{if◌then◌else◌, All, ℕ, ◌≡◌, refl, Bool, true, false, arith}
use cloudflared.Socks.World.{
  Error, Result, ok, err, Event, wrote, wrote_badly, proxied, resolved, dialed, closed, World, M,
  ◌>>=◌, return, fail, read, write, ignore,
}
use cloudflared.Common.Bytes.{Bytes}

-- A dial, if the event is one, goes to an address of which the test holds.
abbrev pub Permitted : (Bytes → Type 0) → Event → Type 0
Permitted test (dialed a) = test a
Permitted test (wrote bs) = Unit {0}
Permitted test (wrote_badly bs) = Unit {0}
Permitted test (proxied bs) = Unit {0}
Permitted test (resolved name) = Unit {0}
Permitted test closed = Unit {0}

abbrev pub IsWithin : (Bytes → Type 0) → World → Type 0
IsWithin test w = All (Permitted test) w.log

pub record Keeps {A : Type 0} (test : Bytes → Type 0) (m : M A) : Type 0 where
  pub at : (w : World) → IsWithin test w → IsWithin test (m w).1

module _ {test : Bytes → Type 0} where
  pub Keeps-return : {A : Type 0} (a : A) → Keeps test (return a)
  unfolding return
  Keeps-return a = record { at = λ w h. h }

  pub Keeps-fail : {A : Type 0} (e : Error) → Keeps test (fail {A = A} e)
  unfolding fail
  Keeps-fail e = record { at = λ w h. h }

  pub Keeps-read : (n : ℕ) → Keeps test (read n)
  unfolding read
  Keeps-read n = record { at = λ w h. ground arith }

  pub Keeps-write : (bs : Bytes) → Keeps test (write bs)
  unfolding write
  Keeps-write bs = record { at = λ w h. ground arith }

  pub Keeps-ignore : {A : Type 0} (m : M A) → Keeps test m → Keeps test (ignore m)
  unfolding ignore
  Keeps-ignore m k = record { at = λ w h. k.at w h }

  pub Keeps-if :
      {A : Type 0} (b : Bool) (m n : M A)
      → Keeps test m
      → Keeps test n
      → Keeps test (if b then m else n)
  Keeps-if true m n km kn = km
  Keeps-if false m n km kn = kn

  bind_at :
      {A B : Type 0} (r : Result A) (w : World) (f : A → M B)
      → IsWithin test w
      → ((a : A) → r ≡ ok a → Keeps test (f a))
      → IsWithin test (elim r as (λ _. Result B × World) [ ok a ↦ f a w | err e ↦ (err e, w) ]).1
  bind_at (ok a) w f h k = (k a refl).at w h
  bind_at (err e) w f h k = h

  -- What follows may use that the first step gave its result.
  pub Keeps-bind_of :
      {A B : Type 0} (m : M A) (f : A → M B)
      → Keeps test m
      → ((w : World) (a : A) → (m w).0 ≡ ok a → Keeps test (f a))
      → Keeps test (m >>= f)
  unfolding ◌>>=◌
  Keeps-bind_of m f km kf = record {
    at = λ w h. bind_at (m w).0 (m w).1 f (km.at w h) (λ a e. kf w a e);
  }

  pub Keeps-bind :
      {A B : Type 0} (m : M A) (f : A → M B)
      → Keeps test m
      → ((a : A) → Keeps test (f a))
      → Keeps test (m >>= f)
  Keeps-bind m f km kf = Keeps-bind_of m f km (λ w a e. kf a)

pub ruleset keeps_rules =
    (Keeps-return, Keeps-fail, Keeps-read, Keeps-write, Keeps-ignore, Keeps-if, Keeps-bind)
