-- ===== src/Double.antt =====
-- C++ `double`, as far as src/*.cpp compute with it: the type and its operations are a parameter.
-- A value of `D` stands for a double that is not NaN; -0.0 and 0.0 may be two values of it, so the
-- order is weak: neither below the other need not mean equal.
use gemini.Prelude.{ℕ, ◌+◌, ◌*◌, ◌/◌, ◌^◌, ◌≡◌, ◌⊎◌, Bool, true, false, arith, if◌then◌else◌}
use gemini.Prelude.Int.{ℤ, pos, pos_part, neg_part, ◌+ℤ◌, ◌-ℤ◌, ◌*ℤ◌, quot, ltb_ℤ}

pub record Double (D : Type 0) : Type 0 where
  -- `lit m k` is the literal with the decimal digits `m`, of which `k` stand behind the point
  pub lit : ℕ → ℕ → D
  -- microseconds as milliseconds: `count() / 1e3`
  pub of_us : ℤ → D
  pub lt : D → D → Bool
  pub add : D → D → D
  pub sub : D → D → D
  pub mul : D → D → D
  pub div : D → D → D
  -- division by an `int`
  pub div_int : D → ℤ → D
  pub neg : D → D
  -- `std::abs`
  pub abs : D → D

module _ {D : Type 0} ⦃d : Double D⦄ where
  -- `std::max` and `std::min`, which give their first argument at a tie
  abbrev pub max_d : D → D → D
  max_d a b = if d.lt a b then b else a

  abbrev pub min_d : D → D → D
  min_d a b = if d.lt b a then b else a

  abbrev pub le : D → D → Bool
  le a b = if d.lt b a then false else true

-- What is used of comparison and subtraction, as it is for doubles other than NaN: comparison is a
-- strict weak order.
pub record IsOrdered (D : Type 0) ⦃d : Double D⦄ : Type 0 where
  pub lt_irrefl : (x : D) → d.lt x x ≡ false
  pub lt_trans : (x y z : D) → d.lt x y ≡ true → d.lt y z ≡ true → d.lt x z ≡ true
  pub lt_split : (x y z : D) → d.lt x z ≡ true → (d.lt x y ≡ true) ⊎ (d.lt y z ≡ true)
  -- a difference is positive just where the first number is the greater one
  pub sub_pos : (x y : D) → d.lt (d.lit 0 1) (d.sub x y) ≡ d.lt y x

-- A stand-in that computes: decimal numbers with nine digits behind the point.
pub record Fixed : Type 0 where
  pub units : ℤ

abbrev one : ℕ
one = 10 ^ 9

abbrev pub fixed : ℤ → Fixed
fixed u = record { units = u }

abbrev sign_quot : ℤ → ℤ → ℤ
sign_quot a b = if ltb_ℤ b (pos 0) then pos 0 -ℤ quot a (neg_part b) else quot a (pos_part b)

instance abbrev pub fixed_double : Double Fixed
fixed_double = record {
  lit = λ m k. fixed (pos (m * one / 10 ^ k));
  of_us = λ n. fixed (n *ℤ pos (one / 1000));
  lt = λ a b. ltb_ℤ a.units b.units;
  add = λ a b. fixed (a.units +ℤ b.units);
  sub = λ a b. fixed (a.units -ℤ b.units);
  mul = λ a b. fixed (quot (a.units *ℤ b.units) one);
  div = λ a b. fixed (sign_quot (a.units *ℤ pos one) b.units);
  div_int = λ a n. fixed (sign_quot a.units n);
  neg = λ a. fixed (pos 0 -ℤ a.units);
  abs = λ a. fixed (pos (pos_part a.units + neg_part a.units));
}

pub Fixed-IsOrdered : IsOrdered Fixed
Fixed-IsOrdered = ground arith

-- For tests: so many milliseconds.
abbrev pub ms : ℕ → Fixed
ms n = fixed (pos (n * one))
