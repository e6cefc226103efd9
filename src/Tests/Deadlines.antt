-- ===== src/Tests/Deadlines.antt =====
-- A wait of 250 ms from 5.9 s.
use gemini.Prelude.{ℕ, ◌+◌, ◌*◌, ◌/◌, ◌%◌, ◌^◌, ◌<◌, ◌≤◌, ◌≡◌, refl, arith}
use gemini.Prelude.Int.{ℤ, pos, negsuc, sub_ℕ, quot, ◌*ℤ◌, ◌+ℤ◌, ◌-ℤ◌}
use gemini.Double.{Fixed, fixed, fixed_double, ms}
use gemini.Deadline.{
  Conversions, get_timespec_after, carry, IsDuration, IsMonotone, get_timespec_after-bounds,
}

abbrev whole_units : ℤ → ℤ
whole_units (pos n) = pos (n / 10 ^ 9 * 10 ^ 9)
whole_units (negsuc n) = sub_ℕ 0 ((n / 10 ^ 9 + 1) * 10 ^ 9)

abbrev conversions : Conversions Fixed
conversions = record {
  of_long = λ t. fixed (t *ℤ pos (10 ^ 9));
  to_long = λ x. quot x.units (10 ^ 9);
  floor = λ x. fixed (whole_units x.units);
}

below_zero : (n : ℕ) → ¬ (IsDuration conversions (fixed (negsuc n)))
below_zero n h = ground (arith, h.not_negative)

fixed-IsDuration : (u : ℕ) → u < 2 ^ 62 * 10 ^ 9 → IsDuration conversions (fixed (pos u))
fixed-IsDuration u small = record { not_negative = ground arith; bounded = ground arith }

duration_bound : (u : ℕ) → IsDuration conversions (fixed (pos u)) → u < 2 ^ 62 * 10 ^ 9
duration_bound u h = ground (arith, h.bounded)

times_billion : (u : ℕ) → pos u *ℤ pos (10 ^ 9) ≡ pos (u * 10 ^ 9)
times_billion u = ground arith

floor-IsDuration :
    (z : ℤ)
    → IsDuration conversions (fixed z)
    → IsDuration conversions (fixed (whole_units (quot (z *ℤ pos (10 ^ 9)) (10 ^ 12))))
floor-IsDuration (pos u) h =
    rw (times_billion u) (
      fixed-IsDuration (u * 10 ^ 9 / 10 ^ 12 / 10 ^ 9 * 10 ^ 9) (omega (arith, duration_bound u h)))
floor-IsDuration (negsuc n) h = absurd (below_zero n h)

rest_of :
    (v : ℕ)
    → quot ((pos v -ℤ pos (v / 10 ^ 9 * 10 ^ 9)) *ℤ pos (10 ^ 18)) (10 ^ 9)
      ≡ pos (v % 10 ^ 9 * 10 ^ 9)
rest_of v = ground arith

fraction-IsDuration :
    (z : ℤ)
    → IsDuration conversions (fixed z)
    → let v = quot (z *ℤ pos (10 ^ 9)) (10 ^ 12) in
      IsDuration conversions (fixed (quot ((v -ℤ whole_units v) *ℤ pos (10 ^ 18)) (10 ^ 9)))
fraction-IsDuration (pos u) h =
    rw (times_billion u, rest_of (u * 10 ^ 9 / 10 ^ 12))
      (fixed-IsDuration (u * 10 ^ 9 / 10 ^ 12 % 10 ^ 9 * 10 ^ 9) (omega arith))
fraction-IsDuration (negsuc n) h = absurd (below_zero n h)

add_units : (n u : ℕ) → quot (pos n *ℤ pos (10 ^ 9) +ℤ pos u) (10 ^ 9) ≡ pos (n + u / 10 ^ 9)
add_units n u = ground arith

increases_fixed :
    (n : ℕ) (z : ℤ)
    → IsDuration conversions (fixed z)
    → (k : ℕ) × (n ≤ k) × (quot (pos n *ℤ pos (10 ^ 9) +ℤ z) (10 ^ 9) ≡ pos k)
increases_fixed n (pos u) h = (n + u / 10 ^ 9, omega arith, add_units n u)
increases_fixed n (negsuc m) h = absurd (below_zero m h)

conversions-IsMonotone : IsMonotone conversions
conversions-IsMonotone = record {
  seconds = λ x h. floor-IsDuration x.units h;
  fraction = λ x h. fraction-IsDuration x.units h;
  increases = λ n x small h. increases_fixed n x.units h;
}

get_timespec_after-bounds_example :
    (s : ℕ) × (n : ℕ) × (get_timespec_after conversions
        (ms 250)
        (record { tv_sec = pos 5; tv_nsec = pos 900_000_000 })
      ≡ record { tv_sec = pos s; tv_nsec = pos n })
    × (n < 10 ^ 9)
    × (5 * 10 ^ 9 + 900_000_000 ≤ s * 10 ^ 9 + n)
get_timespec_after-bounds_example =
    get_timespec_after-bounds conversions (ms 250) 5 900_000_000 conversions-IsMonotone
      (record { not_negative = refl; bounded = refl }) (omega arith) (omega arith)

after_quarter_second :
    get_timespec_after conversions (ms 250) (record { tv_sec = pos 5; tv_nsec = pos 900_000_000 })
    ≡ record { tv_sec = pos 6; tv_nsec = pos 150_000_000 }
unfolding get_timespec_after carry
after_quarter_second = refl
