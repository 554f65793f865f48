-- ===== src/Common/Count.antt =====
-- Counting the entries of a list that pass a test, and finding the first.

use cloudflared.Common.{
  if◌then◌else◌, Bool-cases, ℕ, ◌+◌, ◌≤◌, ◌≡◌, refl, sym, subst, ◌↔◌, inl, inr, Bool, true, Option,
  none, some, List, [], ◌∷◌, arith,
}
use mathlib.Core.Option.{some-injective}

module _ {ℓ} {A : Type ℓ} where
  abbrev pub count_p : (A → Bool) → List A → ℕ
  count_p p [] = 0
  count_p p (x ∷ xs) = (if p x then 1 else 0) + count_p p xs

  unfoldable pub find_p : (A → Bool) → List A → Option A
  find_p p [] = none
  find_p p (x ∷ xs) = if p x then some x else find_p p xs

  -- What is found passes the test.
  pub find_p-some : (p : A → Bool) (xs : List A) (x : A) → find_p p xs ≡ some x → p x ≡ true
  unfolding find_p
  find_p-some p [] x e = cc
  find_p-some p (y ∷ xs) x e = elim (Bool-cases (p y)) [
    | inl hit ↦
        let same : y ≡ x = some-injective _ _ (rw hit at e) in subst (λ z. p z ≡ true) same hit
    | inr miss ↦ find_p-some p xs x (rw miss at e)
  ]

  pub count_p_mono :
      (p q : A → Bool) (xs : List A)
      → ((x : A) → p x ≡ true → q x ≡ true)
      → count_p p xs ≤ count_p q xs
  count_p_mono p q [] h = omega arith
  count_p_mono p q (x ∷ xs) h = ground (arith, count_p_mono p q xs h, h x)

  -- What is found is counted by every test that it passes.
  pub count_p_found :
      (p q : A → Bool) (xs : List A) (x : A) → find_p p xs ≡ some x → q x ≡ true → 1 ≤ count_p q xs
  unfolding find_p
  count_p_found p q [] x e h = cc
  count_p_found p q (y ∷ xs) x e h = elim (Bool-cases (p y)) [
    | inl hit ↦
        let same : x ≡ y = sym (some-injective _ _ (rw hit at e)) in
        let passes : q y ≡ true = subst (λ z. q z ≡ true) same h in ground arith
    | inr miss ↦ omega (arith, count_p_found p q xs x (rw miss at e) h)
  ]

  -- Nothing is found exactly when nothing passes.
  pub find_p-none : (p : A → Bool) (xs : List A) → (find_p p xs ≡ none) ↔ (count_p p xs ≡ 0)
  unfolding find_p
  find_p-none p [] = ((λ e. refl), λ e. refl)
  find_p-none p (x ∷ xs) = ground (arith, find_p-none p xs)
