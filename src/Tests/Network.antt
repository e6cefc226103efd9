-- ===== src/Tests/Network.antt =====
-- A function that fails twice, with -1 and `errno` 110, and then succeeds.
use gemini.Prelude.{ℕ, zero, suc, ◌≡◌, ◌<◌, refl, some, arith, false}
use gemini.Prelude.Int.{pos, negsuc}
use gemini.Comm.Attempts.{
  Attempt, succeeds, multiple_attempt, multiple_attempt-success, multiple_attempt-failure,
}

abbrev calls : ℕ → Attempt
calls zero = record { rc = negsuc 0; errno = pos 110 }
calls (suc zero) = record { rc = negsuc 0; errno = pos 110 }
calls (suc (suc i)) = record { rc = pos 0; errno = pos 110 }

two_fail : (j : ℕ) → j < 2 → succeeds (calls j) ≡ false
two_fail zero h = refl
two_fail (suc zero) h = refl
two_fail (suc (suc j)) h = absurd (omega arith)

success_at_third : multiple_attempt calls 5 ≡ (some (pos 0), 3)
success_at_third = multiple_attempt-success 2 5 calls two_fail refl (omega arith)

both_fail : multiple_attempt calls 2 ≡ (some (pos 110), 2)
both_fail = multiple_attempt-failure 1 calls two_fail
