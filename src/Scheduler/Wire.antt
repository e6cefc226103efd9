-- ===== src/Scheduler/Wire.antt =====
-- `handle_message` of src/scheduler.cpp on the bytes that it receives, and the requests of a Pod manager.
use gemini.Prelude.{
  ℕ, zero, suc, ◌+◌, ◌-◌, ◌^◌, ◌<◌, ◌≤◌, ◌≡◌, refl, Option, none, some, ◌++◌, arith, leb, true, All,
  length, Name, Option-cases, inl, inr,
}
use gemini.Double.{Double}
use gemini.Comm.Buffer.{Buffer, zeros, zeros-length, drop, c_string, get_msg_data, ◌>>=◌}
use gemini.Comm.Layout.{flat}
use gemini.Comm.Messages.{
  Payload, code, request_data, Answer, rsp_mem_limit, rsp_mem_update, Parsed, parse_request,
  prepare_request, prepare_response, Sender, Environment, name_of, rsp_msg_len, req_msg_len,
}
use gemini.Comm.Messages as Messages
use gemini.Comm.Receive.{get_attached, Fits, parse_request-flat, get_attached-flat, c_string-flat}
use gemini.Comm.RoundTrip.{request_size, prepare_request-flat}
use gemini.Scheduler.Select.{Scheduler, find_client}
use gemini.Scheduler.Requests.{
  Request, req_quota, req_mem_limit, req_mem_update, req_unknown, Response, mem_limit, mem_update,
  dispatch, handle_message,
}

-- The message that is sent, if any.
unfoldable pub send_response : Option Response → Option (Option Buffer)
unfolding zeros
send_response none = some none
send_response (some (mem_limit req_id used total)) =
    prepare_response req_id (rsp_mem_limit used total) (zeros rsp_msg_len) >>= λ c. some (some c.0)
send_response (some (mem_update req_id verdict)) =
    prepare_response req_id (rsp_mem_update verdict) (zeros rsp_msg_len) >>= λ c. some (some c.0)

-- `of_bits` is the double of a bit pattern.
module _ {D : Type 0} ⦃d : Double D⦄ (of_bits : ℕ → D) where
  -- What is read of the message, by the type of request.
  unfoldable pub decode : ℕ → ℕ → Buffer → Option (Request D)
  decode zero pos buf = get_msg_data 8 (buf, pos) >>= λ overuse.
      get_msg_data 8 (buf, overuse.1) >>= λ burst.
      some (req_quota (of_bits overuse.0) (of_bits burst.0))
  decode (suc zero) pos buf = some req_mem_limit
  decode (suc (suc zero)) pos buf = some req_mem_update
  decode _ pos buf = some req_unknown

  -- `handle_message` behind `parse_request`. A fault, a read or write past the end of a buffer, is `none`.
  unfoldable pub handle_parsed :
      ℕ
      → Name
      → Parsed
      → Buffer
      → (now arrived : D) → Scheduler D
      → Option (Scheduler D × Option Buffer)
  unfolding decode send_response dispatch find_client
  handle_parsed socket name r buf now arrived s = elim (find_client name s.client_info_map) [
    | none ↦ some (s, none)
    | some info ↦ decode r.type_code r.attached_pos buf >>= λ req.
        let (t, response) = dispatch socket name r.id now arrived info s req in
        send_response response >>= λ out. some (t, out)
  ]

  unfoldable pub handle_bytes :
      ℕ → Buffer → (now arrived : D) → Scheduler D → Option (Scheduler D × Option Buffer)
  unfolding handle_parsed
  handle_bytes socket buf now arrived s = parse_request buf >>= λ r.
      c_string r.name_pos buf >>= λ name. handle_parsed socket name r buf now arrived s

  -- The request that a payload stands for.
  unfoldable pub decoded : Payload → Request D
  decoded (Messages.req_quota overuse burst) = req_quota (of_bits overuse) (of_bits burst)
  decoded Messages.req_mem_limit = req_mem_limit
  decoded (Messages.req_mem_update bytes is_allocate) = req_mem_update

  decode-code :
      (p : Payload) (pos : ℕ) (buf : Buffer)
      → get_attached (code p) pos buf ≡ some p
      → decode (code p) pos buf ≡ some (decoded p)
  unfolding decode decoded get_attached
  decode-code (Messages.req_quota overuse burst) pos buf h = ground arith
  decode-code Messages.req_mem_limit pos buf h = refl
  decode-code (Messages.req_mem_update bytes is_allocate) pos buf h = refl

  -- The state, and the response in bytes.
  abbrev pub sent : Scheduler D × Option Response → Option (Scheduler D × Option Buffer)
  sent r = send_response r.1 >>= λ out. some (r.0, out)

  handle_parsed-code :
      (socket : ℕ) (name : Name) (p : Payload) (r : Parsed) (buf : Buffer) (now arrived : D)
      (s : Scheduler D)
      → r.type_code ≡ code p
      → get_attached (code p) r.attached_pos buf ≡ some p
      → handle_parsed socket name r buf now arrived s
        ≡ sent (handle_message socket name r.id (decoded p) now arrived s)
  unfolding handle_parsed send_response handle_message
  handle_parsed-code socket name p r buf now arrived s e h =
      elim (Option-cases (find_client name s.client_info_map)) [
        | inl unknown ↦ rw (unknown, handle_parsed, handle_message) refl
        | inr (info, known) ↦
            rw (known, handle_parsed, handle_message)
              (rw e (rw (decode-code p r.attached_pos buf h) refl))
      ]

  -- The scheduler does with the bytes of a request what it does with the request, and answers with the bytes
  -- of its response, for a name that leaves room for the request and holds no zero byte, and numbers that fit
  -- their types.
  pub handle_bytes-prepare_request :
      (env : Environment) (sender : Sender) (p : Payload) (socket : ℕ) (now arrived : D)
      (s : Scheduler D)
      → request_size (name_of env sender) p ≤ req_msg_len
      → All (λ b. 0 < b) (name_of env sender)
      → sender.id < 256 ^ 4
      → Fits p
      → (prepare_request env sender p (zeros req_msg_len) >>= λ q.
          handle_bytes socket q.0 now arrived s)
        ≡ sent (handle_message socket (name_of env sender) sender.id (decoded p) now arrived s)
  unfolding handle_bytes
  handle_bytes-prepare_request env sender p socket now arrived s room text hid fits =
      rw (prepare_request-flat env sender p (zeros req_msg_len), room')
        (rw (parse_request-flat name sender.id p rest short hid) (
          rw (c_string-flat name sender.id p rest text) (
            handle_parsed-code socket name p parsed (flat (request_data name sender.id p) ++ rest)
              now arrived s refl (get_attached-flat name sender.id p rest fits))))
    where
      name : Name
      name = name_of env sender

      rest : Buffer
      rest = drop (length (flat (request_data name sender.id p))) (zeros req_msg_len)

      parsed : Parsed
      parsed = record {
        name_pos = 8;
        name_len = length name;
        id = sender.id;
        type_code = code p;
        attached_pos = 17 + length name;
      }

      room' : leb (request_size name p) (length (zeros req_msg_len)) ≡ true
      room' = rw (zeros-length req_msg_len) (ground arith)

      short : length name < 2 ^ 64 - 9
      short = omega (arith, room)
