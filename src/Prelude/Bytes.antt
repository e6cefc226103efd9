-- ===== src/Prelude/Bytes.antt =====
-- Strings as lists of bytes, and their comparison.
use Prim.Native.Nat.{ℕ}
use mathlib.Core.Path.{◌≡◌, refl}
use mathlib.Core.Bool.{Bool, true, false, ◌&&◌}
use mathlib.Core.List.{List, [], ◌∷◌}
use native.Mathlib.Omega.{arith}
use gemini.Prelude.Tests.{◌==◌}

abbrev pub Name : Type 0
Name = List ℕ

-- `==` of two `std::string`s.
unfoldable pub name_eq : Name → Name → Bool
name_eq [] [] = true
name_eq (a ∷ ws) (b ∷ bs) = (a == b) && name_eq ws bs
name_eq _ _ = false

pub name_eq_refl : (a : Name) → name_eq a a ≡ true
unfolding name_eq
name_eq_refl [] = refl
name_eq_refl (a ∷ ws) = ground (arith, name_eq_refl ws)

pub name_eq_sound : (a b : Name) → name_eq a b ≡ true → a ≡ b
unfolding name_eq
name_eq_sound [] [] h = refl
name_eq_sound (a ∷ ws) (b ∷ bs) h = ground (arith, name_eq_sound ws bs)
name_eq_sound [] (b ∷ bs) h = cc
name_eq_sound (a ∷ ws) [] h = cc
