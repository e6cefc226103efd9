-- ===== src/PodManager/Service.antt =====
-- What the Pod manager makes of the bytes of a request that was prepared.
use gemini.Prelude.{
  ℕ, zero, suc, ◌^◌, ◌<◌, ◌≤◌, ◌≡◌, refl, ◌∙◌, some, ◌++◌, arith, Option-cases, inl, inr,
}
use gemini.Comm.Buffer.{Buffer, zeros, zeros-length, ◌>>=◌}
use gemini.Comm.Layout.{flat}
use gemini.Comm.Messages.{
  Payload, req_quota, req_mem_limit, req_mem_update, code, request_data, Answer, prepare_response,
  Sender, Environment, name_of, rsp_msg_len, req_msg_len,
}
use gemini.Comm.Receive.{Fits, receive_answer}
use gemini.Comm.RoundTrip.{request_size, asked, AnswerFits, receive_answer-prepare_response}
use gemini.PodManager.Memory.{Memory, hook_update_memory_usage}
use gemini.PodManager.Server.{reply, serve}
use gemini.PodManager.Wire.{respond, asked-respond, respond-AnswerFits, serve-reply, after_request}

-- The numbers that the Pod manager keeps fit 64 bits.
pub record IsSized (m : Memory) : Type 0 where
  pub used : m.gpu_mem_used < 256 ^ 8
  pub limit : m.gpu_mem_limit < 256 ^ 8

-- A reply holds the bytes of the answer.
reply-bytes :
    (id type_code : ℕ) (a : Answer) (m : Memory)
    → asked a ≡ type_code
    → id < 256 ^ 4
    → AnswerFits a
    → (c : Buffer) × (reply id a m ≡ some (some c, m)) × (receive_answer type_code c ≡ some (id, a))
reply-bytes id type_code a m e hid fits =
    elim (Option-cases (prepare_response id a (zeros rsp_msg_len))) [
      | inl fault ↦ absurd (ground (arith, received, fault))
      | inr (c, made) ↦ (c.0, rw made refl, rw made at received)
    ]
  where
    received :
        (prepare_response id a (zeros rsp_msg_len) >>= λ c. receive_answer type_code c.0)
        ≡ some (id, a)
    received = rw (← e) (
        receive_answer-prepare_response id a (zeros rsp_msg_len) (zeros-length rsp_msg_len) hid
          fits)

-- The bytes of a request.
abbrev pub message : Environment → Sender → Payload → Buffer
message env s p = flat (request_data (name_of env s) s.id p) ++ after_request env s p

module _ (launch : ℕ → ℕ → ℕ) where
  -- What a request does to the Pod manager.
  abbrev pub effect : ℕ → Payload → Memory → Memory
  effect sockfd p m = (respond launch p sockfd m).1

  pub effect-IsSized :
      (sockfd : ℕ) (p : Payload) (m : Memory) → IsSized m → IsSized (effect sockfd p m)
  unfolding respond hook_update_memory_usage
  effect-IsSized sockfd (req_quota overuse burst) m h = h
  effect-IsSized sockfd req_mem_limit m h = h
  effect-IsSized sockfd (req_mem_update bytes zero) m h = record {
    used = ground arith;
    limit = h.limit;
  }
  effect-IsSized sockfd (req_mem_update bytes (suc n)) m h = record {
    used = ground (arith, h.used);
    limit = ground (arith, h.limit);
  }

  -- A request is served with bytes that hold its answer.
  pub serve-bytes :
      (env : Environment) (sender : Sender) (sockfd : ℕ) (p : Payload)
      → request_size (name_of env sender) p ≤ req_msg_len
      → sender.id < 256 ^ 4
      → Fits p
      → ((overuse burst : ℕ) → launch overuse burst < 256 ^ 8)
      → (m : Memory) → IsSized m
      → (c : Buffer) × (serve launch sockfd (message env sender p) m
          ≡ some (some c, effect sockfd p m))
        × (receive_answer (code p) c ≡ some (sender.id, (respond launch p sockfd m).0))
  serve-bytes env sender sockfd p room hid fits small m h =
      let (c, made, read) =
        reply-bytes sender.id (code p) (respond launch p sockfd m).0 (effect sockfd p m)
          (asked-respond launch p sockfd m) hid
          (respond-AnswerFits launch p sockfd m small h.used h.limit) in
      (
        c,
        serve-reply launch env sender p sockfd m (after_request env sender p) room hid fits ∙ made,
        read,
      )
