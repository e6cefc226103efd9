-- ===== src/Comm/FiveAttempts.antt =====
-- Five calls of `multiple_attempt`: what they return, from the attempts alone.
use gemini.Prelude.{
  ℕ, zero, suc, ◌≡◌, refl, Bool, true, false, ◌||◌, Option, none, some, if◌then◌else◌, arith,
  Bool-cases, inl, inr,
}
use gemini.Prelude.Int.{ℤ, pos, negsuc, eqb_ℤ}
use gemini.Comm.Attempts.{Attempt, succeeds, error_of, attempts, multiple_attempt}

-- Whether one of the first attempts, so many, succeeds.
unfoldable pub any_succeeds : ℕ → (ℕ → Attempt) → Bool
any_succeeds zero func = false
any_succeeds (suc n) func = any_succeeds n func || succeeds (func n)

-- The error of five attempts, if all of them fail: that of the last one.
unfoldable pub error_after : (ℕ → Attempt) → Option ℤ
unfolding any_succeeds
error_after func = if any_succeeds 5 func then none else some (error_of (func 4))

-- A call that fails sets `errno`.
abbrev pub SetsErrno : (ℕ → Attempt) → Type 0
SetsErrno func = (i : ℕ) → succeeds (func i) ≡ false → eqb_ℤ (func i).errno (pos 0) ≡ false

-- What five attempts return, by the tests of their results.
rc_of_five :
    (b c d e f : Bool) (rc : ℤ)
    → (let r : Option ℤ × ℕ =
          if b
          then (some (pos 0), 1)
          else if c
          then (some (pos 0), 2)
          else if d
          then (some (pos 0), 3)
          else if e
          then (some (pos 0), 4)
          else if f
          then (some (pos 0), 5)
          else (some rc, 5) in
        r.0)
      ≡ some (if b || c || d || e || f then pos 0 else rc)
rc_of_five true c d e f rc = refl
rc_of_five false true d e f rc = refl
rc_of_five false false true e f rc = refl
rc_of_five false false false true f rc = refl
rc_of_five false false false false true rc = refl
rc_of_five false false false false false rc = refl

pub multiple_attempt-any_succeeds :
    (func : ℕ → Attempt)
    → (multiple_attempt func 5).0 ≡ some (if any_succeeds 5 func then pos 0 else error_of (func 4))
unfolding multiple_attempt attempts any_succeeds
multiple_attempt-any_succeeds func =
    rc_of_five (succeeds (func 0)) (succeeds (func 1)) (succeeds (func 2)) (succeeds (func 3))
      (succeeds (func 4)) (error_of (func 4))

pub any_succeeds-last :
    (func : ℕ → Attempt) → any_succeeds 5 func ≡ false → succeeds (func 4) ≡ false
unfolding any_succeeds
any_succeeds-last func h = elim (Bool-cases (succeeds (func 4))) [
  | inl good ↦ absurd (ground (arith, h, good))
  | inr bad ↦ bad
]

pub error_of-sets :
    (a : Attempt)
    → succeeds a ≡ false
    → eqb_ℤ a.errno (pos 0) ≡ false
    → eqb_ℤ (error_of a) (pos 0) ≡ false
error_of-sets a h k = elim (Bool-cases (eqb_ℤ a.rc (negsuc 0))) [
  | inl minus_one ↦ rw minus_one k
  | inr other ↦ rw other h
]
