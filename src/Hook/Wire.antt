-- ===== src/Hook/Wire.antt =====
-- The requests of src/hook.cpp from end to end: the bytes that `get_gpu_memory_info` and `update_memory_usage`
-- send by `communicate`, what the Pod manager does with each copy that arrives, and the answer they read. The
-- connection is a stream: `recv` gives the earliest response that has not been received.
use gemini.Prelude.{
  ℕ, zero, suc, ◌^◌, ◌<◌, ◌≤◌, ◌≡◌, refl, ap, ◌∙◌, Option, none, some, if◌then◌else◌,
}
use gemini.Prelude.Int.{ℤ, pos, eqb_ℤ}
use gemini.Comm.Buffer.{Buffer, zeros, ◌>>=◌}
use gemini.Comm.Messages.{
  Payload, code, Answer, prepare_request, Sender, Environment, name_of, req_msg_len,
}
use gemini.Comm.Receive.{Fits, receive_answer}
use gemini.Comm.RoundTrip.{request_size}
use gemini.PodManager.Memory.{Memory}
use gemini.PodManager.Server.{Served, serve}
use gemini.PodManager.Wire.{read_reply, respond, prepare_request-zeros}
use gemini.PodManager.Service.{IsSized, effect, effect-IsSized, message, serve-bytes}
use gemini.Hook.Communicate.{
  finds_closed, finds_closed-first, Outcome, unanswered, answered, communicate, net_op_max_attempt,
  repeated, communicate-repeated,
}

-- The answer and the Pod manager, or the code with which the process ends.
pub data Reply : Type 0 where
  replied : Answer → Memory → Reply
  ended : ℤ → Reply

abbrev or_else : Option Buffer → Option Buffer → Option Buffer
or_else none later = later
or_else (some first) later = some first

module _ (launch : ℕ → ℕ → ℕ) (env : Environment) (sender : Sender) (sockfd : ℕ) where
  -- The Pod manager serves the same bytes once more. Its responses come in their order, so that the first one is
  -- the first to be received, also by a later attempt.
  unfoldable pub serve_again : Buffer → Option Served → Option Served
  unfolding serve
  serve_again sbuf none = none
  serve_again sbuf (some (reply, m)) =
      serve launch sockfd sbuf m >>= λ r. some (or_else reply r.0, r.1)

  unfoldable pub read_result : ℕ → Option ℤ → Option Served → Option Reply
  unfolding read_reply
  read_result type_code none served = none
  read_result type_code (some rc) served =
      let answer = served >>= read_reply type_code >>= λ a. some (replied a.1 a.2) in
      if eqb_ℤ rc (pos 0) then answer else some (ended rc)

  unfoldable pub request : Payload → (ℕ → Outcome) → Memory → Option Reply
  unfolding serve_again read_result communicate zeros
  request p outcomes m = prepare_request env sender p (zeros req_msg_len) >>= λ q.
      let (rc, served) = communicate (serve_again q.0) outcomes (some (none, m)) in
      read_result (code p) rc (if finds_closed net_op_max_attempt outcomes 0 then none else served)

  repeated-IsSized :
      (p : Payload) (k : ℕ) (m : Memory)
      → IsSized m
      → IsSized (repeated (effect launch sockfd p) k m)
  unfolding repeated
  repeated-IsSized p zero m h = h
  repeated-IsSized p (suc k) m h =
      effect-IsSized launch sockfd p (repeated (effect launch sockfd p) k m)
        (repeated-IsSized p k m h)

  module _ (p : Payload) (room : request_size (name_of env sender) p ≤ req_msg_len)
      (hid : sender.id < 256 ^ 4) (fits : Fits p)
      (small : (overuse burst : ℕ) → launch overuse burst < 256 ^ 8) where
    -- After some copies the first response is there.
    served_copies :
        (k : ℕ) (m : Memory)
        → IsSized m
        → (c : Buffer) × (repeated (serve_again (message env sender p)) (suc k) (some (none, m))
            ≡ some (some c, repeated (effect launch sockfd p) (suc k) m))
          × (receive_answer (code p) c ≡ some (sender.id, (respond launch p sockfd m).0))
    unfolding repeated serve_again
    served_copies zero m h =
        let (c, made, read) = serve-bytes launch env sender sockfd p room hid fits small m h in
        (c, rw made refl, read)
    served_copies (suc k) m h =
        let (c, before, read) = served_copies k m h in
        let (_, made, _) =
          serve-bytes launch env sender sockfd p room hid fits small
            (repeated (effect launch sockfd p) (suc k) m) (repeated-IsSized p (suc k) m h) in
        (c, rw before (rw made refl), read)

    read_first :
        (k : ℕ) (m : Memory)
        → IsSized m
        → read_result
            (code p)
            (some (pos 0))
            (repeated (serve_again (message env sender p)) (suc k) (some (none, m)))
          ≡ some
              (replied (respond launch p sockfd m).0 (repeated (effect launch sockfd p) (suc k) m))
    unfolding read_result read_reply
    read_first k m h = let (c, before, read) = served_copies k m h in rw before (rw read refl)

    -- If no response is received in time by the first `k` attempts and one is by the next, it is the answer to the
    -- first copy of the request, and the Pod manager, once it has served all copies, has done what the request
    -- asks for `k + 1` times; for a name that leaves room for the request, and numbers that fit their types.
    pub request-respond :
        (outcomes : ℕ → Outcome) (k : ℕ) (m : Memory)
        → IsSized m
        → ((i : ℕ) → i < k → (errno : ℤ) × (outcomes i ≡ unanswered errno))
        → outcomes k ≡ answered
        → k < net_op_max_attempt
        → request p outcomes m
          ≡ some
              (replied (respond launch p sockfd m).0 (repeated (effect launch sockfd p) (suc k) m))
    unfolding request
    request-respond outcomes k m h lost last few = rw (prepare_request-zeros env sender p room) (
        rw (finds_closed-first k net_op_max_attempt outcomes lost last) (
          ap (λ (r : Option ℤ × Option Served). read_result (code p) r.0 r.1)
            (communicate-repeated (serve_again (message env sender p)) outcomes k (some (none, m))
              lost last few)
          ∙ read_first k m h))
