-- ===== src/Comm/RoundTrip.antt =====
-- What `parse_request` makes of a message of `prepare_request`, and which messages fit.
use mathlib.Core.List.{append_assoc}
use gemini.Prelude.{
  ℕ, ◌+◌, ◌%◌, ◌^◌, ◌<◌, ◌≤◌, ◌≡◌, refl, none, some, List, [], ◌∷◌, ◌++◌, arith, if◌then◌else◌, leb,
  length, length-append, All, Bool-cases, inl, inr, ◌↔◌, true, Name, ◌-◌,
}
use gemini.Comm.Receive.{receive, Fits, receive-flat, get_answer, receive_answer, get_msg_data-at}
use gemini.Comm.Buffer.{Buffer, to_bytes, length-to_bytes, drop, ◌>>=◌}
use gemini.Comm.Layout.{flat, append_all-flat}
use gemini.Comm.Messages.{
  Answer, rsp_quota, rsp_mem_limit, rsp_mem_update, answered, rsp_msg_len, prepare_response,
  parse_response, Payload, req_quota, req_mem_limit, req_mem_update, code, Sender, Environment,
  name_of, attached, request_data, prepare_request,
}

abbrev pub attached_size : Payload → ℕ
attached_size (req_quota overuse burst) = 16
attached_size req_mem_limit = 0
attached_size (req_mem_update bytes is_allocate) = 12

-- The bytes of a request: the name with its length and terminator, id, type, and what is attached.
abbrev pub request_size : Name → Payload → ℕ
request_size name p = 17 + length name + attached_size p

length-attached : (p : Payload) → length (flat (attached p)) ≡ attached_size p
length-attached (req_quota overuse burst) =
    rw
      (
        length-append (to_bytes 8 overuse),
        length-append (to_bytes 8 burst),
        length-to_bytes 8 overuse,
        length-to_bytes 8 burst,
      )
      refl
length-attached req_mem_limit = refl
length-attached (req_mem_update bytes is_allocate) =
    rw
      (
        length-append (to_bytes 8 bytes),
        length-append (to_bytes 4 is_allocate),
        length-to_bytes 8 bytes,
        length-to_bytes 4 is_allocate,
      )
      refl

length-request_data :
    (name : Name) (id : ℕ) (p : Payload)
    → length (flat (request_data name id p)) ≡ request_size name p
unfolding request_data
length-request_data name id p = omega (
  arith,
  length-append (to_bytes 8 (length name))
      (name ++ 0 ∷ (to_bytes 4 id ++ (to_bytes 4 (code p) ++ flat (attached p)))),
  length-append name (0 ∷ (to_bytes 4 id ++ (to_bytes 4 (code p) ++ flat (attached p)))),
  length-append (to_bytes 4 id) (to_bytes 4 (code p) ++ flat (attached p)),
  length-append (to_bytes 4 (code p)) (flat (attached p)),
  length-to_bytes 8 (length name),
  length-to_bytes 4 id,
  length-to_bytes 4 (code p),
  length-attached p,
)

-- The static variables after a message.
abbrev pub next_sender : Environment → Sender → Sender
next_sender env s = record { client_name = some (name_of env s); id = (s.id + 1) % 2 ^ 32 }

pub prepare_request-flat :
    (env : Environment) (s : Sender) (p : Payload) (buf : Buffer)
    → let bytes = flat (request_data (name_of env s) s.id p) in
      prepare_request env s p buf ≡ (
        if leb (request_size (name_of env s) p) (length buf)
        then some (bytes ++ drop (length bytes) buf, s.id, next_sender env s)
        else none)
unfolding prepare_request
prepare_request-flat env s p buf =
    let name = name_of env s in
    elim (Bool-cases (leb (request_size name p) (length buf))) [
      | inl fits ↦
          rw
            (
              append_all-flat (request_data name s.id p) [] buf 0 refl,
              length-request_data name s.id p,
              fits,
            )
            refl
      | inr over ↦
          rw
            (
              append_all-flat (request_data name s.id p) [] buf 0 refl,
              length-request_data name s.id p,
              over,
            )
            refl
    ]

-- `prepare_request` writes past the end of the buffer exactly when the message does not fit.
pub prepare_request-none :
    (env : Environment) (s : Sender) (p : Payload) (buf : Buffer)
    → (prepare_request env s p buf ≡ none) ↔ (length buf < request_size (name_of env s) p)
prepare_request-none env s p buf =
    elim (Bool-cases (leb (request_size (name_of env s) p) (length buf))) [
      | inl fits ↦ rw (prepare_request-flat env s p buf, fits) (ground arith)
      | inr over ↦ rw (prepare_request-flat env s p buf, over) (ground arith)
    ]

-- A receiver reads from a message that fits its buffer the name, the id and the request that were sent.
pub receive-prepare_request :
    (env : Environment) (s : Sender) (p : Payload) (buf : Buffer)
    → request_size (name_of env s) p ≤ length buf
    → All (λ b. 0 < b) (name_of env s)
    → length (name_of env s) < 2 ^ 64 - 9
    → s.id < 256 ^ 4
    → Fits p
    → (prepare_request env s p buf >>= λ m. receive m.0) ≡ some (name_of env s, s.id, p)
receive-prepare_request env s p buf room text short hid fits =
    rw (prepare_request-flat env s p buf, room')
      (receive-flat (name_of env s) s.id p (drop (length bytes) buf) text short hid fits)
  where
    bytes : Buffer
    bytes = flat (request_data (name_of env s) s.id p)

    room' : leb (request_size (name_of env s) p) (length buf) ≡ true
    room' = ground arith

-- The type of request that is answered.
abbrev pub asked : Answer → ℕ
asked (rsp_quota quota) = 0
asked (rsp_mem_limit used total) = 1
asked (rsp_mem_update verdict) = 2

unfoldable pub AnswerFits : Answer → Type 0
AnswerFits (rsp_quota quota) = quota < 256 ^ 8
AnswerFits (rsp_mem_limit used total) = (used < 256 ^ 8) × (total < 256 ^ 8)
AnswerFits (rsp_mem_update verdict) = verdict < 256 ^ 4

response_data-fits :
    (id : ℕ) (a : Answer) → length (flat (to_bytes 4 id ∷ answered a)) ≤ rsp_msg_len
unfolding to_bytes
response_data-fits id (rsp_quota quota) = omega arith
response_data-fits id (rsp_mem_limit used total) = omega arith
response_data-fits id (rsp_mem_update verdict) = omega arith

-- A response of any type fits its buffer.
pub prepare_response_fits :
    (id : ℕ) (a : Answer) (buf : Buffer)
    → length buf ≡ rsp_msg_len
    → (c : Buffer × ℕ) × (prepare_response id a buf ≡ some c)
unfolding prepare_response
prepare_response_fits id a buf len =
    let bytes = flat (to_bytes 4 id ∷ answered a) in
    let room : leb (length bytes) (length buf) ≡ true = ground (arith, response_data-fits id a) in
    (
      (bytes ++ drop (length bytes) buf, 0 + length bytes),
      rw (append_all-flat (to_bytes 4 id ∷ answered a) [] buf 0 refl, room) refl,
    )

get_answer-append :
    (a : Answer) (done rest : List ℕ)
    → AnswerFits a
    → get_answer (asked a) (length done) (done ++ (flat (answered a) ++ rest)) ≡ some a
unfolding get_answer AnswerFits
get_answer-append (rsp_quota quota) done rest hq =
    let buf = done ++ (flat (answered (rsp_quota quota)) ++ rest) in
    rw (get_msg_data-at 8 quota (length done) buf done rest (simp append_assoc) refl hq) refl
get_answer-append (rsp_mem_limit used total) done rest (hu, ht) =
    let buf = done ++ (flat (answered (rsp_mem_limit used total)) ++ rest) in
    rw
      (
        get_msg_data-at 8 used (length done) buf done (to_bytes 8 total ++ rest) (simp append_assoc)
            refl hu,
        get_msg_data-at 8 total (length done + 8) buf (done ++ to_bytes 8 used) rest
            (simp append_assoc)
            (omega (arith, length-append done (to_bytes 8 used), length-to_bytes 8 used)) ht,
      )
      refl
get_answer-append (rsp_mem_update verdict) done rest hv =
    let buf = done ++ (flat (answered (rsp_mem_update verdict)) ++ rest) in
    rw (get_msg_data-at 4 verdict (length done) buf done rest (simp append_assoc) refl hv) refl

receive_answer-flat :
    (id : ℕ) (a : Answer) (rest : List ℕ)
    → id < 256 ^ 4
    → AnswerFits a
    → receive_answer (asked a) (flat (to_bytes 4 id ∷ answered a) ++ rest) ≡ some (id, a)
unfolding receive_answer parse_response to_bytes
receive_answer-flat id a rest hid fits =
    rw (get_msg_data-at 4 id 0 buf [] (flat (answered a) ++ rest) (simp append_assoc) refl hid)
      (rw the_answer refl)
  where
    buf : Buffer
    buf = flat (to_bytes 4 id ∷ answered a) ++ rest

    the_answer : get_answer (asked a) 4 buf ≡ some a
    the_answer = rw (length-to_bytes 4 id) at (get_answer-append a (to_bytes 4 id) rest fits)

-- A response of any type fits the buffer of a response, and the receiver, which knows what it asked
-- for, reads the id and the answer that were sent.
pub receive_answer-prepare_response :
    (id : ℕ) (a : Answer) (buf : Buffer)
    → length buf ≡ rsp_msg_len
    → id < 256 ^ 4
    → AnswerFits a
    → (prepare_response id a buf >>= λ m. receive_answer (asked a) m.0) ≡ some (id, a)
unfolding prepare_response
receive_answer-prepare_response id a buf len hid fits =
    rw (append_all-flat (to_bytes 4 id ∷ answered a) [] buf 0 refl, room)
      (receive_answer-flat id a (drop (length bytes) buf) hid fits)
  where
    bytes : Buffer
    bytes = flat (to_bytes 4 id ∷ answered a)

    room : leb (length bytes) (length buf) ≡ true
    room = ground (arith, response_data-fits id a)
