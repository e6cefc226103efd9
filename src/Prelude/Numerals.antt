-- ===== src/Prelude/Numerals.antt =====
-- Decimal numerals as characters, and the tests of `isdigit` and `isspace` in the "C" locale.
use Prim.Native.Nat.{ℕ, ◌+◌, ◌-◌, ◌*◌, ◌^◌, ◌<◌}
use mathlib.Core.Path.{◌≡◌}
use mathlib.Core.Bool.{Bool, true, ◌&&◌, ◌||◌}
use mathlib.Core.List.{List, ◌∷◌, [], map}
use native.Mathlib.Omega.{arith}
use gemini.Prelude.Tests.{leb, ◌==◌}
use gemini.Prelude.Lists.{length, All}

abbrev pub is_digit : ℕ → Bool
is_digit c = leb 48 c && leb c 57

abbrev pub is_space : ℕ → Bool
is_space c = (c == 32) || leb 9 c && leb c 13

-- A numeral: its digits, the highest first, at least one.
pub record Numeral : Type 0 where
  pub first : ℕ
  pub others : List ℕ

abbrev pub AreDigits : List ℕ → Type 0
AreDigits ds = All (λ d. d < 10) ds

abbrev pub IsNumeral : Numeral → Type 0
IsNumeral m = (m.first < 10) × AreDigits m.others

-- The number that digits stand for.
abbrev pub value : List ℕ → ℕ
value [] = 0
value (d ∷ ds) = d * 10 ^ length ds + value ds

abbrev pub number : Numeral → ℕ
number m = value (m.first ∷ m.others)

abbrev pub characters : List ℕ → List ℕ
characters ds = map (λ d. 48 + d) ds

abbrev pub written : Numeral → List ℕ
written m = (48 + m.first) ∷ characters m.others

pub is_digit_char : (d : ℕ) → d < 10 → is_digit (48 + d) ≡ true
is_digit_char d small = ground arith

pub char_value : (d : ℕ) → 48 + d - 48 ≡ d
char_value d = omega arith

-- A digit more, in front of digits worth `v`.
pub value_shift : (n d x v : ℕ) → (n * 10 + d) * x + v ≡ n * (x * 10) + (d * x + v)
value_shift n d x v = grind arith
