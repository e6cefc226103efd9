-- ===== src/Scheduler/Session.antt =====
-- `pod_client_func` of src/scheduler.cpp: the thread that serves a Pod manager. Each message is received whole,
-- with the times at which it reads the clock.
use gemini.Prelude.{
  ℕ, ◌^◌, ◌<◌, ◌≤◌, ◌≡◌, refl, Option, none, some, List, [], ◌∷◌, arith, All, Option-cases, inl,
  inr,
}
use gemini.Double.{Double}
use gemini.Comm.Buffer.{Buffer, zeros, zeros-length, ◌>>=◌}
use gemini.Comm.Messages.{
  Payload, rsp_mem_limit, rsp_mem_update, prepare_request, Sender, Environment, name_of,
  req_msg_len, rsp_msg_len,
}
use gemini.Comm.Receive.{Fits}
use gemini.Comm.RoundTrip.{request_size, next_sender, prepare_response_fits}
use gemini.Scheduler.Select.{Scheduler}
use gemini.Scheduler.Requests.{
  Message, Response, mem_limit, mem_update, handle_message, handle_messages,
}
use gemini.Scheduler.Wire.{handle_bytes, handle_bytes-prepare_request, decoded, send_response, sent}
use gemini.PodManager.Wire.{prepare_request-zeros}
use gemini.PodManager.Service.{message}

abbrev with_response {ℓ} : {A : Type ℓ} → Option A → List A → List A
with_response none rs = rs
with_response (some r) rs = r ∷ rs

-- A request with the two readings of the clock.
pub record Timed (D : Type 0) : Type 0 where
  pub payload : Payload
  pub now : D
  pub arrived : D

-- The bytes that a Pod manager sends for its requests.
unfoldable pub prepare_timed :
    {D : Type 0} → Environment → Sender → List (Timed D) → Option (List (Buffer × D × D))
unfolding prepare_request zeros
prepare_timed env p [] = some []
prepare_timed env p (r ∷ rs) = prepare_request env p r.payload (zeros req_msg_len) >>= λ q.
    prepare_timed env q.2 rs >>= λ rest. some ((q.0, r.now, r.arrived) ∷ rest)

module _ {D : Type 0} ⦃d : Double D⦄ (of_bits : ℕ → D) (socket : ℕ) where
  -- The scheduler afterwards, and what is sent.
  unfoldable pub pod_client_func :
      List (Buffer × D × D) → Scheduler D → Option (Scheduler D × List Buffer)
  unfolding handle_bytes
  pod_client_func [] s = some (s, [])
  pod_client_func ((rbuf, now, arrived) ∷ rbufs) s =
      handle_bytes of_bits socket rbuf now arrived s >>= λ r.
      pod_client_func rbufs r.0 >>= λ rest. some (rest.0, with_response r.1 rest.1)

  -- A request as a message, with the id that the Pod manager gives it.
  abbrev pub message_of : Environment → Sender → Timed D → Message D
  message_of env p r = record {
    socket = socket;
    sender = name_of env p;
    req_id = p.id;
    request = decoded of_bits r.payload;
    now = r.now;
    arrived = r.arrived;
  }

  unfoldable pub messages_of : Environment → Sender → List (Timed D) → List (Message D)
  messages_of env p [] = []
  messages_of env p (r ∷ rs) = message_of env p r ∷ messages_of env (next_sender env p) rs

-- The responses to messages, in their order.
unfoldable pub responses :
    {D : Type 0} ⦃d : Double D⦄ → Scheduler D → List (Message D) → List Response
unfolding handle_message
responses s [] = []
responses s (m ∷ ms) =
    let (t, response) = handle_message m.socket m.sender m.req_id m.request m.now m.arrived s in
    with_response response (responses t ms)

-- The bytes are those of the responses.
abbrev pub Sends : List Response → List Buffer → Type 0
Sends [] [] = Unit
Sends (r ∷ rs) (b ∷ bs) = (send_response (some r) ≡ some (some b)) × Sends rs bs
Sends _ _ = ⊥

send_response-sends : (r : Response) → (b : Buffer) × (send_response (some r) ≡ some (some b))
unfolding send_response
send_response-sends (mem_limit req_id used total) =
    let (c, e) =
      prepare_response_fits req_id (rsp_mem_limit used total) (zeros rsp_msg_len)
        (zeros-length rsp_msg_len) in
    (c.0, rw e refl)
send_response-sends (mem_update req_id verdict) =
    let (c, e) =
      prepare_response_fits req_id (rsp_mem_update verdict) (zeros rsp_msg_len)
        (zeros-length rsp_msg_len) in
    (c.0, rw e refl)

module _ {D : Type 0} ⦃d : Double D⦄ (of_bits : ℕ → D) (socket : ℕ) (env : Environment) where
  record IsHandled (p : Sender) (rs : List (Timed D)) (s : Scheduler D) : Type 0 where
    rbufs : List (Buffer × D × D)
    sbufs : List Buffer
    prepared : prepare_timed env p rs ≡ some rbufs
    handled :
        pod_client_func of_bits socket rbufs s
        ≡ some (handle_messages s (messages_of of_bits socket env p rs), sbufs)
    sends : Sends (responses s (messages_of of_bits socket env p rs)) sbufs

  module _ (p : Sender) (r : Timed D) (s : Scheduler D) where
    result : Scheduler D × Option Response
    result =
        handle_message socket (name_of env p) p.id (decoded of_bits r.payload) r.now r.arrived s

    request-sent :
        request_size (name_of env p) r.payload ≤ req_msg_len
        → All (λ b. 0 < b) (name_of env p)
        → p.id < 256 ^ 4
        → Fits r.payload
        → handle_bytes of_bits socket (message env p r.payload) r.now r.arrived s
          ≡ sent of_bits result
    unfolding result
    request-sent room text hid fits = rw (prepare_request-zeros env p r.payload room) at (
        handle_bytes-prepare_request of_bits env p r.payload socket r.now r.arrived s room text hid
          fits)

    request-IsHandled :
        (rs : List (Timed D))
        → request_size (name_of env p) r.payload ≤ req_msg_len
        → All (λ b. 0 < b) (name_of env p)
        → p.id < 256 ^ 4
        → Fits r.payload
        → IsHandled (next_sender env p) rs result.0
        → IsHandled p (r ∷ rs) s
    unfolding prepare_timed pod_client_func messages_of handle_messages responses send_response
        result
    request-IsHandled rs room text hid fits rest = elim (Option-cases result.1) [
      | inl quiet ↦ record {
        rbufs = (message env p r.payload, r.now, r.arrived) ∷ rest.rbufs;
        sbufs = rest.sbufs;
        prepared = rw (prepare_request-zeros env p r.payload room) (rw rest.prepared refl);
        handled = rw (request-sent room text hid fits) (rw quiet (rw rest.handled refl));
        sends = rw quiet rest.sends;
      }
      | inr (response, some_response) ↦
          let (b, e) = send_response-sends response in
          record {
            rbufs = (message env p r.payload, r.now, r.arrived) ∷ rest.rbufs;
            sbufs = b ∷ rest.sbufs;
            prepared = rw (prepare_request-zeros env p r.payload room) (rw rest.prepared refl);
            handled =
                rw (request-sent room text hid fits)
                  (rw some_response (rw e (rw rest.handled refl)));
            sends = rw some_response (e, rest.sends);
          }
    ]

  requests-IsHandled :
      (p : Sender) (rs : List (Timed D)) (s : Scheduler D)
      → All
          (λ (r : Timed D). (request_size (name_of env p) r.payload ≤ req_msg_len) × Fits r.payload)
          rs
      → All (λ b. 0 < b) (name_of env p)
      → p.id < 256 ^ 4
      → IsHandled p rs s
  unfolding prepare_timed pod_client_func messages_of handle_messages responses result name_of
  requests-IsHandled p [] s fit text hid = record {
    rbufs = [];
    sbufs = [];
    prepared = refl;
    handled = refl;
    sends = tt;
  }
  requests-IsHandled p (r ∷ rs) s ((room, fits), fit) text hid =
      request-IsHandled p r s rs room text hid fits
        (requests-IsHandled (next_sender env p) rs (result p r s).0 fit text (omega arith))

  -- From the bytes of the requests of a Pod manager the scheduler does what it does with the requests themselves,
  -- and it sends the bytes of its responses in their order: for requests that fit their messages, a name without
  -- zero bytes and an id of 4 bytes.
  pub pod_client_func-handle_messages :
      (p : Sender) (rs : List (Timed D)) (s : Scheduler D)
      → All
          (λ (r : Timed D). (request_size (name_of env p) r.payload ≤ req_msg_len) × Fits r.payload)
          rs
      → All (λ b. 0 < b) (name_of env p)
      → p.id < 256 ^ 4
      → let ms = messages_of of_bits socket env p rs in
        (sbufs : List Buffer) × ((prepare_timed env p rs >>= λ rbufs.
        pod_client_func of_bits socket rbufs s)
          ≡ some (handle_messages s ms, sbufs))
        × Sends (responses s ms) sbufs
  pod_client_func-handle_messages p rs s fit text hid =
      let h = requests-IsHandled p rs s fit text hid in (h.sbufs, rw h.prepared h.handled, h.sends)
