-- ===== src/Tests/Tokens.antt =====
-- The token of a process whose first two attempts are not answered, and of one with no answer at all.
use gemini.Prelude.{zero, suc, ◌≡◌, refl, arith, some}
use gemini.Prelude.Int.{pos}
use gemini.Double.{fixed_double, ms}
use gemini.Comm.FiveAttempts.{SetsErrno, error_after, any_succeeds}
use gemini.Comm.Messages.{req_mem_limit, name_of}
use gemini.Hook.Communicate.{unanswered}
use gemini.Hook.Wire.{ended, request}
use gemini.Hook.Token.{
  granted, attempts_of, get_token_from_scheduler, get_token_from_scheduler-error_after,
  request-ended,
}
use gemini.Tests.Wires.{env, sender, launch, outcomes, pod}

outcomes-SetsErrno : SetsErrno (attempts_of outcomes)
outcomes-SetsErrno zero h = refl
outcomes-SetsErrno (suc zero) h = refl
outcomes-SetsErrno (suc (suc i)) h = absurd (ground (arith, h))

get_token_from_scheduler-error_after_example :
    get_token_from_scheduler launch env sender 3 outcomes 0 20_000_000 pod
    ≡ some (granted (ms 6000))
unfolding error_after any_succeeds name_of
get_token_from_scheduler-error_after_example =
    get_token_from_scheduler-error_after launch env sender 3 outcomes 0 20_000_000 pod (omega arith)
      outcomes-SetsErrno

-- The error of the last attempt ends the process.
no_answer :
    request launch env sender 3 req_mem_limit (λ i. unanswered (pos 11)) pod ≡ some (ended (pos 11))
unfolding error_after any_succeeds name_of
no_answer =
    request-ended launch env sender 3 (λ i. unanswered (pos 11)) req_mem_limit pod (pos 11)
      (omega arith) (λ i _. refl) refl
