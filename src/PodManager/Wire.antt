-- ===== src/PodManager/Wire.antt =====
-- A request of the hook library over the wire: `prepare_request`, `hook_thread_func` at the Pod manager, and
-- what the hook library reads from the response.
use gemini.Prelude.{
  ℕ, zero, suc, ◌+◌, ◌-◌, ◌^◌, ◌<◌, ◌≤◌, ◌≡◌, refl, sym, ap, ◌∙◌, Option, none, some, ◌++◌, arith,
  leb, true, length,
}
use gemini.Comm.Buffer.{Buffer, zeros, zeros-length, >>=_assoc, drop, ◌>>=◌}
use gemini.Comm.Layout.{flat}
use gemini.Comm.Messages.{
  Payload, req_quota, req_mem_limit, req_mem_update, code, request_data, Answer, rsp_quota,
  rsp_mem_limit, rsp_mem_update, Parsed, prepare_request, prepare_response, Sender, Environment,
  name_of, rsp_msg_len, req_msg_len,
}
use gemini.Comm.Receive.{get_attached, Fits, receive_answer, parse_request-flat, get_attached-flat}
use gemini.Comm.RoundTrip.{
  request_size, next_sender, prepare_request-flat, asked, AnswerFits,
  receive_answer-prepare_response,
}
use gemini.PodManager.Memory.{Memory, hook_update_memory_usage}
use gemini.PodManager.Server.{Served, reply, answer_request, serve}

-- What the hook library makes of what it receives.
unfoldable pub read_reply : ℕ → Served → Option (ℕ × Answer × Memory)
read_reply type_code (none, m) = none
read_reply type_code (some rbuf, m) = receive_answer type_code rbuf >>= λ a. some (a.0, a.1, m)

-- What is left of the buffer behind a request.
abbrev pub after_request : Environment → Sender → Payload → Buffer
after_request env s p =
    drop (length (flat (request_data (name_of env s) s.id p))) (zeros req_msg_len)

-- The bytes of a request that has room.
pub prepare_request-zeros :
    (env : Environment) (s : Sender) (p : Payload)
    → request_size (name_of env s) p ≤ req_msg_len
    → prepare_request env s p (zeros req_msg_len)
      ≡ some (
        flat (request_data (name_of env s) s.id p) ++ after_request env s p,
        s.id,
        next_sender env s,
      )
prepare_request-zeros env s p room =
    rw (prepare_request-flat env s p (zeros req_msg_len), fits) refl
  where
    fits : leb (request_size (name_of env s) p) (length (zeros req_msg_len)) ≡ true
    fits = rw (zeros-length req_msg_len) (ground arith)

module _ (launch : ℕ → ℕ → ℕ) where
  -- What the Pod manager is to answer, with no bytes in sight.
  unfoldable pub respond : Payload → ℕ → Memory → Answer × Memory
  respond (req_quota overuse burst) sockfd m = (rsp_quota (launch overuse burst), m)
  respond req_mem_limit sockfd m = (rsp_mem_limit m.gpu_mem_used m.gpu_mem_limit, m)
  respond (req_mem_update bytes is_allocate) sockfd m =
      let (ok, m') = hook_update_memory_usage bytes is_allocate sockfd m in (rsp_mem_update ok, m')

  -- The exchange of the two messages over a connection.
  unfoldable pub exchange :
      Environment → Sender → Payload → ℕ → Memory → Option (ℕ × Answer × Memory)
  unfolding read_reply serve zeros
  exchange env s p sockfd m = prepare_request env s p (zeros req_msg_len) >>= λ q.
      serve launch sockfd q.0 m >>= read_reply (code p)

  answer_request-code :
      (p : Payload) (sockfd : ℕ) (r : Parsed) (buf : Buffer) (m : Memory)
      → get_attached (code p) r.attached_pos buf ≡ some p
      → answer_request launch (code p) sockfd r buf m
        ≡ reply r.id (respond p sockfd m).0 (respond p sockfd m).1
  unfolding answer_request respond get_attached
  answer_request-code (req_quota overuse burst) sockfd r buf m h = ground arith
  answer_request-code req_mem_limit sockfd r buf m h = refl
  answer_request-code (req_mem_update bytes is_allocate) sockfd r buf m h = ground arith

  pub asked-respond :
      (p : Payload) (sockfd : ℕ) (m : Memory) → asked (respond p sockfd m).0 ≡ code p
  unfolding respond
  asked-respond (req_quota overuse burst) sockfd m = refl
  asked-respond req_mem_limit sockfd m = refl
  asked-respond (req_mem_update bytes is_allocate) sockfd m = refl

  -- The answer fits the response, where what the Pod manager keeps and the quota are 64-bit numbers.
  pub respond-AnswerFits :
      (p : Payload) (sockfd : ℕ) (m : Memory)
      → ((overuse burst : ℕ) → launch overuse burst < 256 ^ 8)
      → m.gpu_mem_used < 256 ^ 8
      → m.gpu_mem_limit < 256 ^ 8
      → AnswerFits (respond p sockfd m).0
  unfolding respond AnswerFits hook_update_memory_usage
  respond-AnswerFits (req_quota overuse burst) sockfd m small used limit = small overuse burst
  respond-AnswerFits req_mem_limit sockfd m small used limit = (used, limit)
  respond-AnswerFits (req_mem_update bytes zero) sockfd m small used limit = omega arith
  respond-AnswerFits (req_mem_update bytes (suc n)) sockfd m small used limit = ground arith

  -- A response is read as what was answered.
  reply-read :
      (id : ℕ) (p : Payload) (a : Answer) (m : Memory)
      → asked a ≡ code p
      → id < 256 ^ 4
      → AnswerFits a
      → (reply id a m >>= read_reply (code p)) ≡ some (id, a, m)
  unfolding read_reply
  reply-read id p a m e hid fits =
      >>=_assoc (prepare_response id a (zeros rsp_msg_len)) (λ c. some (some c.0, m))
        (read_reply (code p))
      ∙ (sym (
            >>=_assoc (prepare_response id a (zeros rsp_msg_len)) (λ c. receive_answer (code p) c.0)
              (λ b. some (b.0, b.1, m)))
          ∙ ap (λ (o : Option (ℕ × Answer)). o >>= λ b. some (b.0, b.1, m)) received)
    where
      received :
          (prepare_response id a (zeros rsp_msg_len) >>= λ c. receive_answer (code p) c.0)
          ≡ some (id, a)
      received = rw (← e) (
          receive_answer-prepare_response id a (zeros rsp_msg_len) (zeros-length rsp_msg_len) hid
            fits)

  -- The Pod manager serves the bytes of a request with what it is to answer.
  pub serve-reply :
      (env : Environment) (s : Sender) (p : Payload) (sockfd : ℕ) (m : Memory) (rest : Buffer)
      → request_size (name_of env s) p ≤ req_msg_len
      → s.id < 256 ^ 4
      → Fits p
      → serve launch sockfd (flat (request_data (name_of env s) s.id p) ++ rest) m
        ≡ reply s.id (respond p sockfd m).0 (respond p sockfd m).1
  unfolding serve
  serve-reply env s p sockfd m rest room hid fits =
      rw (parse_request-flat (name_of env s) s.id p rest short hid) (
        answer_request-code p sockfd parsed (flat (request_data (name_of env s) s.id p) ++ rest) m
          (get_attached-flat (name_of env s) s.id p rest fits))
    where
      parsed : Parsed
      parsed = record {
        name_pos = 8;
        name_len = length (name_of env s);
        id = s.id;
        type_code = code p;
        attached_pos = 17 + length (name_of env s);
      }

      short : length (name_of env s) < 2 ^ 64 - 9
      short = omega (arith, room)

  -- Over the wire the hook library gets just what the Pod manager is to answer, for a name that leaves room
  -- for the request and holds no zero byte, and numbers that fit their types.
  pub exchange-respond :
      (env : Environment) (s : Sender) (p : Payload) (sockfd : ℕ) (m : Memory)
      → request_size (name_of env s) p ≤ req_msg_len
      → s.id < 256 ^ 4
      → Fits p
      → ((overuse burst : ℕ) → launch overuse burst < 256 ^ 8)
      → m.gpu_mem_used < 256 ^ 8
      → m.gpu_mem_limit < 256 ^ 8
      → exchange env s p sockfd m ≡ some (s.id, (respond p sockfd m).0, (respond p sockfd m).1)
  unfolding exchange
  exchange-respond env s p sockfd m room hid fits small used limit =
      rw (prepare_request-zeros env s p room) (
        rw (serve-reply env s p sockfd m (after_request env s p) room hid fits) (
          reply-read s.id p (respond p sockfd m).0 (respond p sockfd m).1 (asked-respond p sockfd m)
            hid (respond-AnswerFits p sockfd m small used limit)))
