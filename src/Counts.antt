-- ===== src/Counts.antt =====
-- How many elements of a list pass a test.
use mathlib.Core.List.{Permᴰ}
use gemini.Prelude.{
  ℕ, ◌+◌, ◌≤◌, ◌≡◌, refl, Bool, true, false, List, [], ◌∷◌, ◌++◌, if◌then◌else◌, All, arith, ap,
  one_if,
}

module _ {A : Type 0} where
  abbrev pub count : (A → Bool) → List A → ℕ
  count p [] = 0
  count p (x ∷ xs) = one_if (p x) + count p xs

  pub count-append : (p : A → Bool) (xs ys : List A) → count p (xs ++ ys) ≡ count p xs + count p ys
  count-append p [] ys = omega arith
  count-append p (x ∷ xs) ys = omega (arith, count-append p xs ys)

  pub count-perm : (p : A → Bool) {xs ys : List A} → Permᴰ xs ys → count p xs ≡ count p ys
  count-perm p Permᴰ.nil = refl
  count-perm p (Permᴰ.cons e h) = omega (arith, count-perm p h, ap (λ x. one_if (p x)) e)
  count-perm p (Permᴰ.swap e e') =
      omega (arith, ap (λ x. one_if (p x)) e, ap (λ x. one_if (p x)) e')
  count-perm p (Permᴰ.trans h k) = omega (arith, count-perm p h, count-perm p k)

  -- A test that no element passes.
  pub count-none : (p : A → Bool) (xs : List A) → All (λ x. p x ≡ false) xs → count p xs ≡ 0
  count-none p [] h = refl
  count-none p (x ∷ xs) (h, hs) = ground (arith, count-none p xs hs)

  -- A test that passes where another one does.
  pub count_mono :
      (p q : A → Bool) (xs : List A)
      → All (λ x. (if p x then q x else true) ≡ true) xs
      → count p xs ≤ count q xs
  count_mono p q [] h = omega arith
  count_mono p q (x ∷ xs) (h, hs) = ground (arith, count_mono p q xs hs)
