-- ===== src/Prelude/Lists.antt =====
-- Lists: lengths in native numbers, predicates by recursion, and the two ends of a deque.
use Prim.Native.Nat.{ℕ, suc, ◌+◌}
use mathlib.Core.Path.{◌≡◌}
use mathlib.Core.Bool.{Bool}
use mathlib.Core.List.{List, [], ◌∷◌, ◌++◌}
use native.Mathlib.Omega.{arith}
use gemini.Prelude.Tests.{if◌then◌else◌}

module _ {ℓ} {A : Type ℓ} where
  abbrev pub length : List A → ℕ
  length [] = 0
  length (x ∷ xs) = suc (length xs)

  pub length-append : (xs ys : List A) → length (xs ++ ys) ≡ length xs + length ys
  length-append [] ys = omega arith
  length-append (x ∷ xs) ys = omega (arith, length-append xs ys)

  abbrev pub All {κ} : (A → Type κ) → List A → Type κ
  All P [] = Unit
  All P (x ∷ xs) = P x × All P xs

  pub All-append {κ} : (P : A → Type κ) (xs ys : List A) → All P xs → All P ys → All P (xs ++ ys)
  All-append P [] ys p q = q
  All-append P (x ∷ xs) ys (p, ps) q = (p, All-append P xs ys ps q)

  -- An element of a list, and what holds of the others.
  pub All-middle {κ} :
      (P : A → Type κ) (xs ys : List A) (y : A) → All P (xs ++ y ∷ ys) → P y × All P (xs ++ ys)
  All-middle P [] ys y h = h
  All-middle P (x ∷ xs) ys y (p, ps) = let (q, qs) = All-middle P xs ys y ps in (q, (p, qs))

  pub All-map {κ κ'} :
      (P : A → Type κ) (Q : A → Type κ') (f : (a : A) → P a → Q a) (xs : List A)
      → All P xs
      → All Q xs
  All-map P Q f [] p = tt
  All-map P Q f (x ∷ xs) (p, ps) = (f x p, All-map P Q f xs ps)

  pub All-of {κ} : {P : A → Type κ} → ((a : A) → P a) → (xs : List A) → All P xs
  All-of f [] = tt
  All-of f (x ∷ xs) = (f x, All-of f xs)

  -- `while (!q.empty() && p(q.front())) q.pop_front();`
  unfoldable pub pop_front_while : (A → Bool) → List A → List A
  pop_front_while p [] = []
  pop_front_while p (x ∷ xs) = if p x then pop_front_while p xs else x ∷ xs

  abbrev cons_unless : Bool → A → List A → List A
  cons_unless b x [] = if b then [] else x ∷ []
  cons_unless b x (y ∷ ys) = x ∷ y ∷ ys

  -- `while (!q.empty() && p(q.back())) q.pop_back();`: an element goes if it fits and all behind it
  -- have gone.
  unfoldable pub pop_back_while : (A → Bool) → List A → List A
  pop_back_while p [] = []
  pop_back_while p (x ∷ xs) = cons_unless (p x) x (pop_back_while p xs)

  -- The elements that fail `p`, in order.
  unfoldable pub reject : (A → Bool) → List A → List A
  reject p [] = []
  reject p (x ∷ xs) = if p x then reject p xs else x ∷ reject p xs
