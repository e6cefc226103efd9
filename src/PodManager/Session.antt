-- ===== src/PodManager/Session.antt =====
-- A connection from `accept` to its end: `hook_thread_func` of src/pod-manager.cpp. Each message
-- is received whole. The bursts of the connections, which a thread forgets at its end as well, are `Quota`'s.
use gemini.Prelude.{ℕ, ◌^◌, ◌<◌, ◌≤◌, ◌≡◌, Option, none, some, List, [], ◌∷◌, All}
use gemini.Comm.Buffer.{Buffer, ◌>>=◌}
use gemini.Comm.Messages.{Payload, code, Answer, Sender, Environment, name_of, req_msg_len}
use gemini.Comm.Receive.{Fits, receive_answer}
use gemini.Comm.RoundTrip.{request_size}
use gemini.PodManager.Memory.{Memory, close}
use gemini.PodManager.Server.{serve}
use gemini.PodManager.Wire.{respond}
use gemini.PodManager.Service.{effect, message}

abbrev with_reply : Option Buffer → List Buffer → List Buffer
with_reply none replies = replies
with_reply (some reply) replies = reply ∷ replies

-- A request with its sender, who has an id for it.
pub record Sent : Type 0 where
  pub sender : Sender
  pub payload : Payload

-- The bytes of requests.
unfoldable pub messages : Environment → List Sent → List Buffer
messages env [] = []
messages env (r ∷ rs) = message env r.sender r.payload ∷ messages env rs

-- Every request fits its message, and its id 4 bytes.
abbrev pub Sendable : Environment → List Sent → Type 0
Sendable env rs =
    All
      (λ (r : Sent).
        (request_size (name_of env r.sender) r.payload ≤ req_msg_len)
        × Fits r.payload
        × (r.sender.id < 256 ^ 4))
      rs

-- From the responses their receivers read the id of each request and the answer to it.
abbrev pub Answers : List Sent → List Buffer → List Answer → Type 0
Answers [] [] [] = Unit
Answers (r ∷ rs) (rbuf ∷ rbufs) (a ∷ as') =
    (receive_answer (code r.payload) rbuf ≡ some (r.sender.id, a)) × Answers rs rbufs as'
Answers _ _ _ = ⊥

module _ (launch : ℕ → ℕ → ℕ) where
  -- The loop, over the messages that `recv` gives: what is sent, and the memory accounting.
  unfoldable pub serve_all : ℕ → List Buffer → Memory → Option (List Buffer × Memory)
  unfolding serve
  serve_all sockfd [] m = some ([], m)
  serve_all sockfd (rbuf ∷ rbufs) m = serve launch sockfd rbuf m >>= λ r.
      serve_all sockfd rbufs r.1 >>= λ rest. some (with_reply r.0 rest.0, rest.1)

  unfoldable pub hook_thread_func : ℕ → List Buffer → Memory → Option (List Buffer × Memory)
  unfolding serve_all close
  hook_thread_func sockfd rbufs m = serve_all sockfd rbufs m >>= λ r. some (r.0, close sockfd r.1)

  -- The answers with no bytes in sight.
  unfoldable pub answers_of : ℕ → List Sent → Memory → List Answer
  unfolding respond
  answers_of sockfd [] m = []
  answers_of sockfd (r ∷ rs) m =
      (respond launch r.payload sockfd m).0
      ∷ answers_of sockfd rs (effect launch sockfd r.payload m)

  unfoldable pub effects : ℕ → List Sent → Memory → Memory
  effects sockfd [] m = m
  effects sockfd (r ∷ rs) m = effects sockfd rs (effect launch sockfd r.payload m)
