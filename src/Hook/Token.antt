-- ===== src/Hook/Token.antt =====
-- `get_token_from_scheduler` of src/hook.cpp, and the requests of the library when all attempts fail.
use gemini.Prelude.{
  ℕ, ◌≤◌, ◌≡◌, refl, ap, ◌∙◌, Option, none, some, Bool-cases, inl, inr, if◌then◌else◌,
}
use gemini.Prelude.Int.{ℤ, pos, eqb_ℤ}
use gemini.Double.{Double}
use gemini.Comm.Buffer.{zeros, ◌>>=◌}
use gemini.Comm.Messages.{
  Payload, req_quota, code, prepare_request, Sender, Environment, name_of, req_msg_len,
}
use gemini.Comm.RoundTrip.{request_size}
use gemini.Comm.Attempts.{Attempt, error_of}
use gemini.Comm.FiveAttempts.{
  any_succeeds, error_after, SetsErrno, multiple_attempt-any_succeeds, any_succeeds-last,
  error_of-sets,
}
use gemini.PodManager.Memory.{Memory}
use gemini.PodManager.Wire.{read_reply, prepare_request-zeros}
use gemini.PodManager.Service.{message}
use gemini.Hook.Communicate.{finds_closed, net_op_max_attempt, Outcome, attempt_of, communicate}
use gemini.Hook.Launch.{new_quota}
use gemini.Hook.Wire.{replied, ended, serve_again, read_result, request}

-- The quota, or the code with which the process ends.
pub data Token (D : Type 0) : Type 0 where
  granted : D → Token D
  exited : ℤ → Token D

-- With the result of `communicate`; the response is not read.
unfoldable pub token_from : {D : Type 0} ⦃d : Double D⦄ → Option ℤ → Option (Token D)
token_from none = none
token_from (some rc) = if eqb_ℤ rc (pos 0) then some (granted new_quota) else some (exited rc)

-- The attempts of a request to which these outcomes come.
abbrev pub attempts_of : (ℕ → Outcome) → ℕ → Attempt
attempts_of outcomes i = attempt_of (outcomes i)

-- The code of `communicate`: 0, or the error of the last attempt.
abbrev code_after : (ℕ → Outcome) → ℤ
code_after outcomes =
    if any_succeeds 5 (attempts_of outcomes) then pos 0 else error_of (attempts_of outcomes 4)

communicate-code_after :
    {S : Type 0} (serve : S → S) (outcomes : ℕ → Outcome) (m : S)
    → (communicate serve outcomes m).0 ≡ some (code_after outcomes)
unfolding communicate
communicate-code_after serve outcomes m = multiple_attempt-any_succeeds (attempts_of outcomes)

-- What a caller makes of the code.
error_after-code_after :
    {A : Type 0} (outcomes : ℕ → Outcome) (good : A) (bad : ℤ → A)
    → SetsErrno (attempts_of outcomes)
    → (if eqb_ℤ (code_after outcomes) (pos 0) then good else bad (code_after outcomes))
      ≡ elim (error_after (attempts_of outcomes)) [ none ↦ good | some rc ↦ bad rc ]
unfolding error_after
error_after-code_after outcomes good bad sets =
    elim (Bool-cases (any_succeeds 5 (attempts_of outcomes))) [
      | inl answered ↦ rw answered refl
      | inr failed ↦
          rw
            (
              failed,
              error_of-sets (attempts_of outcomes 4)
                  (any_succeeds-last (attempts_of outcomes) failed)
                  (sets 4 (any_succeeds-last (attempts_of outcomes) failed)),
            )
            refl
    ]

module _ (launch : ℕ → ℕ → ℕ) (env : Environment) (sender : Sender) (sockfd : ℕ)
    (outcomes : ℕ → Outcome) where
  -- `overuse` and `next_burst` are the bytes of the doubles in the message.
  unfoldable pub get_token_from_scheduler :
      {D : Type 0} ⦃d : Double D⦄ → (overuse next_burst : ℕ) → Memory → Option (Token D)
  unfolding serve_again communicate token_from prepare_request zeros
  get_token_from_scheduler overuse next_burst m =
      prepare_request env sender (req_quota overuse next_burst) (zeros req_msg_len) >>= λ q.
      token_from
        (communicate (serve_again launch env sender sockfd q.0) outcomes (some (none, m))).0

  -- If one of five attempts does not fail, by a response or because the Pod manager has closed the connection,
  -- the token is for 6000 milliseconds, whatever the Pod manager answers; else the process ends with the error of
  -- the last attempt. The name leaves room for the request, and a call
  -- that fails sets `errno`.
  pub get_token_from_scheduler-error_after :
      {D : Type 0} ⦃d : Double D⦄ (overuse next_burst : ℕ) (m : Memory)
      → request_size (name_of env sender) (req_quota overuse next_burst) ≤ req_msg_len
      → SetsErrno (attempts_of outcomes)
      → get_token_from_scheduler overuse next_burst m ≡ (elim (error_after (attempts_of outcomes)) [
        | none ↦ some (granted (d.lit 6000 0))
        | some rc ↦ some (exited rc)
      ])
  unfolding get_token_from_scheduler token_from
  get_token_from_scheduler-error_after overuse next_burst m room sets =
      rw (prepare_request-zeros env sender (req_quota overuse next_burst) room) (
        ap token_from (
          communicate-code_after
            (serve_again launch env sender sockfd
              (message env sender (req_quota overuse next_burst)))
            outcomes (some (none, m)))
        ∙ error_after-code_after outcomes (some (granted new_quota)) (λ rc. some (exited rc)) sets)

  -- If all five attempts of a request fail, the process ends with the error of the last one, for a
  -- name that leaves room for the request, where a call that fails sets `errno`.
  pub request-ended :
      (p : Payload) (m : Memory) (rc : ℤ)
      → request_size (name_of env sender) p ≤ req_msg_len
      → SetsErrno (attempts_of outcomes)
      → error_after (attempts_of outcomes) ≡ some rc
      → request launch env sender sockfd p outcomes m ≡ some (ended rc)
  unfolding request read_result
  request-ended p m rc room sets failed =
      let again = serve_again launch env sender sockfd (message env sender p) in
      let r = communicate again outcomes (some (none, m)) in
      let got = if finds_closed net_op_max_attempt outcomes 0 then none else r.1 in
      let answer = got >>= read_reply (code p) >>= λ a. some (replied a.1 a.2) in
      rw (prepare_request-zeros env sender p room) (
        ap (λ o. read_result launch env sender sockfd (code p) o got)
          (communicate-code_after again outcomes (some (none, m)))
        ∙ error_after-code_after outcomes answer (λ errno. some (ended errno)) sets
        ∙ rw failed refl)
