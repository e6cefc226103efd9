-- ===== src/Deadline.antt =====
-- The time at which a wait is over: `get_timespec_after` of src/scheduler.cpp, and what `wait_cuda_kernels` of
-- src/hook.cpp computes likewise.
use gemini.Prelude.{ℕ, suc, ◌+◌, ◌*◌, ◌/◌, ◌%◌, ◌^◌, ◌<◌, ◌≤◌, ◌≡◌, refl, true, false, arith}
use gemini.Prelude.Int.{ℤ, pos, negsuc, ◌+ℤ◌, quot, sub_ℕ}
use gemini.Double.{Double, max_d}

-- `struct timespec`
pub record Timespec : Type 0 where
  pub tv_sec : ℤ
  pub tv_nsec : ℤ

abbrev billion : ℕ
billion = 10 ^ 9

-- The remainder of C++, which has the sign of the dividend.
abbrev remainder : ℤ → ℕ → ℤ
remainder (pos n) k = pos (n % k)
remainder (negsuc n) k = sub_ℕ 0 (suc n % k)

-- The whole seconds among the nanoseconds are carried over.
unfoldable pub carry : Timespec → Timespec
carry ts = record {
  tv_sec = ts.tv_sec +ℤ quot ts.tv_nsec billion;
  tv_nsec = remainder ts.tv_nsec billion;
}

pos_add : (a b : ℕ) → pos a +ℤ pos b ≡ pos (a + b)
pos_add a b = ground arith

-- The conversions between `long` and `double`, and `floor`.
pub record Conversions (D : Type 0) : Type 0 where
  pub of_long : ℤ → D
  pub to_long : D → ℤ
  pub floor : D → D

module _ {D : Type 0} ⦃d : Double D⦄ (c : Conversions D) where
  -- `t += x;`
  abbrev add_to : ℤ → D → ℤ
  add_to t x = c.to_long (d.add (c.of_long t) x)

  abbrev seconds_of : D → D
  seconds_of ms = d.div ms (d.lit 1000 0)

  abbrev fraction_of : D → D
  fraction_of sec = d.mul (d.sub sec (c.floor sec)) (d.lit billion 0)

  -- `now` is what the clock reads.
  unfoldable pub get_timespec_after : D → Timespec → Timespec
  unfolding carry
  get_timespec_after ms now = carry (record {
    tv_sec = add_to now.tv_sec (c.floor (seconds_of ms));
    tv_nsec = add_to now.tv_nsec (fraction_of (seconds_of ms));
  })

  -- The time at which the token expires.
  unfoldable pub expiration : D → Timespec → Timespec
  unfolding carry
  expiration quota now =
      let nsec = d.mul (max_d quota (d.lit 0 0)) (d.lit (10 ^ 6) 0) in
      let whole = c.floor (d.div nsec (d.lit billion 0)) in
      carry (record {
        tv_sec = add_to now.tv_sec whole;
        tv_nsec = add_to now.tv_nsec (d.sub nsec (d.mul whole (d.lit billion 0)));
      })

  -- From 0 to below 2 ^ 62.
  pub record IsDuration (x : D) : Type 0 where
    pub not_negative : d.lt x (d.lit 0 0) ≡ false
    pub bounded : d.lt x (d.lit (2 ^ 62) 0) ≡ true

  -- What is used of the conversions: `floor` of a number of milliseconds in seconds and the rest of it are no
  -- negative numbers, and to add one of these to a whole number that a double holds exactly does not make it less.
  pub record IsMonotone : Type 0 where
    pub seconds : (ms : D) → IsDuration ms → IsDuration (c.floor (seconds_of ms))
    pub fraction : (ms : D) → IsDuration ms → IsDuration (fraction_of (seconds_of ms))
    pub increases :
        (n : ℕ) (x : D) → n < 2 ^ 53 → IsDuration x → (k : ℕ) × (n ≤ k) × (add_to (pos n) x ≡ pos k)

  -- A wait of `ms` milliseconds, from 0 to below 2 ^ 62, ends at a time that `pthread_cond_timedwait` takes: its
  -- nanoseconds are from 0 to below 10 ^ 9, and in nanoseconds it is not before now; for a reading of the clock
  -- below 2 ^ 53 seconds.
  pub get_timespec_after-bounds :
      (ms : D) (sec nsec : ℕ)
      → IsMonotone
      → IsDuration ms
      → sec < 2 ^ 53
      → nsec < 10 ^ 9
      → (s : ℕ) × (n : ℕ) × (get_timespec_after ms (record { tv_sec = pos sec; tv_nsec = pos nsec })
          ≡ record { tv_sec = pos s; tv_nsec = pos n })
        × (n < 10 ^ 9)
        × (sec * 10 ^ 9 + nsec ≤ s * 10 ^ 9 + n)
  unfolding get_timespec_after carry
  get_timespec_after-bounds ms sec nsec h wait sec_small nsec_small =
      let (s, later, e) = h.increases sec (c.floor (seconds_of ms)) sec_small (h.seconds ms wait) in
      let (n, more, e') =
        h.increases nsec (fraction_of (seconds_of ms)) (omega arith) (h.fraction ms wait) in
      (
        s + n / billion,
        n % billion,
        rw (e, e', pos_add s (n / billion)) refl,
        omega arith,
        omega arith,
      )
