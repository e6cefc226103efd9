-- ===== src/Comm/Attempts.antt =====
-- `multiple_attempt` of src/comm.cpp. What the i-th call of the function returns, with `errno` after
-- it, is an argument; the pauses are left out.
use gemini.Prelude.{
  ℕ, zero, suc, ◌+◌, ◌<◌, ◌≡◌, refl, ap, ◌∙◌, Bool, true, false, Option, none, some, if◌then◌else◌,
  arith,
}
use gemini.Prelude.Int.{ℤ, pos, negsuc, eqb_ℤ}

pub record Attempt : Type 0 where
  pub rc : ℤ
  pub errno : ℤ

abbrev pub succeeds : Attempt → Bool
succeeds a = eqb_ℤ a.rc (pos 0)

-- The error of an attempt: -1 stands for `errno`.
abbrev pub error_of : Attempt → ℤ
error_of a = if eqb_ℤ a.rc (negsuc 0) then a.errno else a.rc

-- The loop with `n` attempts left, after `i` calls: `rc`, which has no value at first, and the number
-- of calls.
unfoldable pub attempts : (n : ℕ) → (ℕ → Attempt) → (i : ℕ) → Option ℤ → Option ℤ × ℕ
attempts zero func i rc = (rc, i)
attempts (suc n) func i rc =
    let rest = attempts n func (suc i) (some (error_of (func i))) in
    if succeeds (func i) then (some (pos 0), suc i) else rest

unfoldable pub multiple_attempt : (ℕ → Attempt) → ℕ → Option ℤ × ℕ
unfolding attempts
multiple_attempt func max_attempt = attempts max_attempt func 0 none

attempts-again :
    (n i : ℕ) (func : ℕ → Attempt) (rc : Option ℤ)
    → succeeds (func i) ≡ false
    → attempts (suc n) func i rc ≡ attempts n func (suc i) (some (error_of (func i)))
unfolding attempts
attempts-again n i func rc fails = rw fails refl

add_suc : (i j : ℕ) → i + suc j ≡ suc i + j
add_suc i j = omega arith

zero_add : (i : ℕ) → 0 + i ≡ i
zero_add i = omega arith

add_zero : (i : ℕ) → i + 0 ≡ i
add_zero i = omega arith

-- The attempts after the first one.
rest_fail :
    (k i : ℕ) (func : ℕ → Attempt)
    → ((j : ℕ) → j < suc k → succeeds (func (i + j)) ≡ false)
    → (j : ℕ) → j < k
    → succeeds (func (suc i + j)) ≡ false
rest_fail k i func fails j lt = rw (add_suc i j) at (fails (suc j) (omega arith))

first_fails :
    (k i : ℕ) (func : ℕ → Attempt)
    → ((j : ℕ) → j < suc k → succeeds (func (i + j)) ≡ false)
    → succeeds (func i) ≡ false
first_fails k i func fails = rw (add_zero i) at (fails 0 (omega arith))

attempts-success :
    (k n i : ℕ) (func : ℕ → Attempt) (rc : Option ℤ)
    → ((j : ℕ) → j < k → succeeds (func (i + j)) ≡ false)
    → succeeds (func (i + k)) ≡ true
    → k < n
    → attempts n func i rc ≡ (some (pos 0), suc (i + k))
unfolding attempts
attempts-success k zero i func rc fails ok lt = absurd (omega arith)
attempts-success zero (suc n) i func rc fails ok lt =
    let e : i + 0 ≡ i = omega arith in
    let ok' : succeeds (func i) ≡ true = rw e at ok in rw (ok', e) refl
attempts-success (suc k) (suc n) i func rc fails ok lt =
    attempts-again n i func rc (first_fails k i func fails)
    ∙ (attempts-success k n (suc i) func (some (error_of (func i))) (rest_fail k i func fails)
          (rw (add_suc i k) at ok) (omega arith)
        ∙ ap (λ m. (some (pos 0), suc m)) (omega arith))

attempts-failure :
    (n i : ℕ) (func : ℕ → Attempt) (rc : Option ℤ)
    → ((j : ℕ) → j < suc n → succeeds (func (i + j)) ≡ false)
    → attempts (suc n) func i rc ≡ (some (error_of (func (i + n))), suc (i + n))
unfolding attempts
attempts-failure zero i func rc fails =
    attempts-again 0 i func rc (first_fails 0 i func fails) ∙ rw (add_zero i) refl
attempts-failure (suc n) i func rc fails =
    attempts-again (suc n) i func rc (first_fails (suc n) i func fails)
    ∙ (attempts-failure n (suc i) func (some (error_of (func i))) (rest_fail (suc n) i func fails)
        ∙ ap (λ m. (some (error_of (func m)), suc m)) (omega arith))

-- The first attempt that succeeds, if it is within the number of attempts, is the last one made, and
-- the result is 0.
pub multiple_attempt-success :
    (k max_attempt : ℕ) (func : ℕ → Attempt)
    → ((j : ℕ) → j < k → succeeds (func j) ≡ false)
    → succeeds (func k) ≡ true
    → k < max_attempt
    → multiple_attempt func max_attempt ≡ (some (pos 0), suc k)
unfolding multiple_attempt
multiple_attempt-success k n func fails ok lt =
    rw (zero_add k) at (
      attempts-success k n 0 func none (λ j h. rw (zero_add j) (fails j h)) (rw (zero_add k) ok) lt)

-- If every attempt fails, all are made, and the result is the error of the last one: `errno` where it
-- returned -1.
pub multiple_attempt-failure :
    (n : ℕ) (func : ℕ → Attempt)
    → ((j : ℕ) → j < suc n → succeeds (func j) ≡ false)
    → multiple_attempt func (suc n) ≡ (some (error_of (func n)), suc n)
unfolding multiple_attempt
multiple_attempt-failure n func fails =
    rw (zero_add n) at (attempts-failure n 0 func none (λ j h. rw (zero_add j) (fails j h)))
