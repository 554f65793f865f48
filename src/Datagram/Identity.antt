-- ===== src/Datagram/Identity.antt =====
-- tracing/identity.go: the identity of a trace as 25 bytes. The fields are numbers below 2 ^ 64, and
-- the flags below 256.

use cloudflared.Common.{
  ltb, ◌==◌, if◌then◌else◌, Bool-cases, length, take, drop, length-append, take-append, drop-append,
  ℕ, zero, suc, ◌+◌, ◌-◌, ◌*◌, ◌/◌, ◌%◌, ◌^◌, ◌≤◌, ◌<◌, ◌≡◌, refl, ap, ◌∙◌, subst, ◌⊎◌, inl, inr,
  false, Option, none, some, [], ◌∷◌, ◌++◌, arith,
}
use cloudflared.Common.Bytes.{Bytes}
use mathlib.Core.List.{append_assoc}

pub record Identity : Type 0 where
  pub trace_id_upper : ℕ
  pub trace_id_lower : ℕ
  pub span_id : ℕ
  pub flags : ℕ

-- binary.Write in BigEndian of an n-byte number
unfoldable pub put_be : ℕ → ℕ → Bytes
put_be zero x = []
put_be (suc n) x = put_be n (x / 256) ++ x % 256 ∷ []

-- binary.Read in BigEndian, after a number already read
unfoldable pub read_be : ℕ → Bytes → ℕ
read_be x [] = x
read_be x (b ∷ bs) = read_be (x * 256 + b) bs

unfoldable pub marshal_binary : Identity → Bytes
marshal_binary t =
    put_be 8 t.trace_id_upper ++ put_be 8 t.trace_id_lower ++ put_be 8 t.span_id ++ put_be 1 t.flags

-- The fields are read from the front of the buffer.
unfoldable pub unmarshal_binary : Bytes → Option Identity
unmarshal_binary b =
    let b1 = drop 8 b in
    let b2 = drop 8 b1 in
    let b3 = drop 8 b2 in
    if ltb (length b) 25
    then none
    else some (record {
      trace_id_upper = read_be 0 (take 8 b);
      trace_id_lower = read_be 0 (take 8 b1);
      span_id = read_be 0 (take 8 b2);
      flags = read_be 0 (take 1 b3);
    })

-- What padTracingID gives; strings.Repeat panics on a negative count.
pub data Padded : Type 0 where
  missing panics : Padded
  padded : Bytes → Padded

unfoldable pub zeros : ℕ → Bytes
zeros zero = []
zeros (suc n) = 48 ∷ zeros n

unfoldable pub pad_tracing_id : Bytes → Padded
pad_tracing_id s =
    if length s == 0
    then missing
    else if length s == 32
    then padded s
    else if ltb 32 (length s)
    then panics
    else padded (zeros (32 - length s) ++ s)

length-put_be : (n x : ℕ) → length (put_be n x) ≡ n
unfolding put_be
length-put_be zero x = refl
length-put_be (suc n) x =
    omega (arith, length-append (put_be n (x / 256)) (x % 256 ∷ []), length-put_be n (x / 256))

read_be-append : (x : ℕ) (bs cs : Bytes) → read_be x (bs ++ cs) ≡ read_be (read_be x bs) cs
unfolding read_be
read_be-append x [] cs = refl
read_be-append x (b ∷ bs) cs = read_be-append (x * 256 + b) bs cs

read_be-put_be : (n x : ℕ) → x < 256 ^ n → read_be 0 (put_be n x) ≡ x
unfolding put_be read_be
read_be-put_be zero x h = omega arith
read_be-put_be (suc n) x h =
    let before : read_be 0 (put_be n (x / 256)) ≡ x / 256 =
      read_be-put_be n (x / 256) (omega arith) in
    rw (read_be-append 0 (put_be n (x / 256)) (x % 256 ∷ []), before) (omega arith)

length-zeros : (n : ℕ) → length (zeros n) ≡ n
unfolding zeros
length-zeros zero = refl
length-zeros (suc n) = ap suc (length-zeros n)

-- The fields are within their widths.
abbrev pub IsIdentity : Identity → Type 0
IsIdentity t =
    (t.trace_id_upper < 256 ^ 8)
    × (t.trace_id_lower < 256 ^ 8)
    × (t.span_id < 256 ^ 8)
    × (t.flags < 256)

take_exact : (b c : Bytes) (n : ℕ) → length b ≡ n → take n (b ++ c) ≡ b
take_exact b c n e = subst (λ (k : ℕ). take k (b ++ c) ≡ b) e (take-append b c)

drop_exact : (b c : Bytes) (n : ℕ) → length b ≡ n → drop n (b ++ c) ≡ c
drop_exact b c n e = subst (λ (k : ℕ). drop k (b ++ c) ≡ c) e (drop-append b c)

append_assoc4 : (a b c d e : Bytes) → a ++ b ++ c ++ d ++ e ≡ a ++ (b ++ (c ++ (d ++ e)))
append_assoc4 a b c d e =
    append_assoc (a ++ b ++ c) d e
    ∙ append_assoc (a ++ b) c (d ++ e)
    ∙ append_assoc a b (c ++ (d ++ e))

length-append4 :
    (a b c d : Bytes) → length (a ++ b ++ c ++ d) ≡ length a + length b + length c + length d
length-append4 a b c d =
    omega (arith, length-append (a ++ b ++ c) d, length-append (a ++ b) c, length-append a b)

unmarshal_binary-append :
    (a b c d rest : Bytes)
    → length a ≡ 8
    → length b ≡ 8
    → length c ≡ 8
    → length d ≡ 1
    → unmarshal_binary (a ++ b ++ c ++ d ++ rest)
      ≡ some (record {
        trace_id_upper = read_be 0 a;
        trace_id_lower = read_be 0 b;
        span_id = read_be 0 c;
        flags = read_be 0 d;
      })
unfolding unmarshal_binary
unmarshal_binary-append a b c d rest ea eb ec ed =
    let long : ltb (length (a ++ (b ++ (c ++ (d ++ rest))))) 25 ≡ false = ground (
      arith,
      length-append a (b ++ (c ++ (d ++ rest))),
      length-append b (c ++ (d ++ rest)),
      length-append c (d ++ rest),
      length-append d rest,
    ) in
    rw (
      append_assoc4 a b c d rest,
      long,
      take_exact a (b ++ (c ++ (d ++ rest))) 8 ea,
      drop_exact a (b ++ (c ++ (d ++ rest))) 8 ea,
      take_exact b (c ++ (d ++ rest)) 8 eb,
      drop_exact b (c ++ (d ++ rest)) 8 eb,
      take_exact c (d ++ rest) 8 ec,
      drop_exact c (d ++ rest) 8 ec,
      take_exact d rest 1 ed,
    )

-- The identity of a trace survives the wire: it is marshalled into 25 bytes, and these, whatever
-- follows them, are unmarshalled into the same identity.
pub unmarshal_binary-marshal_binary :
    (t : Identity) (rest : Bytes)
    → IsIdentity t
    → (length (marshal_binary t) ≡ 25) × (unmarshal_binary (marshal_binary t ++ rest) ≡ some t)
unfolding marshal_binary
unmarshal_binary-marshal_binary t rest (upper, lower, span, small) =
    let a = put_be 8 t.trace_id_upper in
    let b = put_be 8 t.trace_id_lower in
    let c = put_be 8 t.span_id in
    let d = put_be 1 t.flags in
    let ea = length-put_be 8 t.trace_id_upper in
    let eb = length-put_be 8 t.trace_id_lower in
    let ec = length-put_be 8 t.span_id in
    let ed = length-put_be 1 t.flags in
    (
      omega (arith, length-append4 a b c d, ea, eb, ec, ed),
      rw (
        unmarshal_binary-append a b c d rest ea eb ec ed,
        read_be-put_be 8 t.trace_id_upper upper,
        read_be-put_be 8 t.trace_id_lower lower,
        read_be-put_be 8 t.span_id span,
        read_be-put_be 1 t.flags small,
      ),
    )

-- A tracing ID is padded to the width of 32 when it has 1 to 32 characters, is reported missing when
-- it is empty, and makes strings.Repeat panic when it is longer.
pub pad_tracing_id-total :
    (s : Bytes)
    → ((length s ≡ 0) × (pad_tracing_id s ≡ missing))
      ⊎ ((1 ≤ length s)
          × (length s ≤ 32)
          × ((t : Bytes) × (pad_tracing_id s ≡ padded t)
              × (length t ≡ 32)
              × (drop (32 - length s) t ≡ s)))
      ⊎ ((32 < length s) × (pad_tracing_id s ≡ panics))
unfolding pad_tracing_id
pad_tracing_id-total s =
    let z = zeros (32 - length s) in
    let n = length-zeros (32 - length s) in
    elim (Bool-cases (length s == 0)) [
      | inl e ↦ inl (ground arith, rw e)
      | inr e ↦ elim (Bool-cases (length s == 32)) [
        | inl e' ↦
            let none_left : 32 - length s ≡ 0 = ground arith in
            inr (inl (ground arith, ground arith, (s, rw (e, e'), ground arith, rw none_left)))
        | inr e' ↦ elim (Bool-cases (ltb 32 (length s))) [
          | inl e'' ↦ inr (inr (ground arith, rw (e, e', e'')))
          | inr e'' ↦ inr (
              inl (
                ground arith,
                ground arith,
                (
                  z ++ s,
                  rw (e, e', e''),
                  ground (arith, length-append z s, n),
                  drop_exact z s (32 - length s) n,
                ),
              ))
        ]
      ]
    ]
