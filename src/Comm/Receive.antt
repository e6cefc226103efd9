-- ===== src/Comm/Receive.antt =====
-- How a receiver takes a message apart: `parse_request` with the reads of what is attached, as
-- `handle_message` of src/scheduler.cpp and `hook_thread_func` of src/pod-manager.cpp make them.
use mathlib.Core.List.{append_assoc}
use gemini.Prelude.{
  ℕ, zero, suc, ◌+◌, ◌-◌, ◌%◌, ◌^◌, ◌<◌, ◌≡◌, refl, Option, none, some, List, [], ◌∷◌, ◌++◌, arith,
  length, length-append, All, Name,
}
use gemini.Comm.Buffer.{Buffer, to_bytes, length-to_bytes, c_string, get_msg_data, ◌>>=◌}
use gemini.Comm.Layout.{flat, get_msg_data-append}
use gemini.Comm.Messages.{
  Payload, Answer, rsp_quota, rsp_mem_limit, rsp_mem_update, parse_response, req_quota,
  req_mem_limit, req_mem_update, code, attached, request_data, parse_request,
}

-- What is attached to a request of that code.
unfoldable pub get_attached : ℕ → ℕ → Buffer → Option Payload
get_attached zero pos buf = get_msg_data 8 (buf, pos) >>= λ overuse.
    get_msg_data 8 (buf, overuse.1) >>= λ burst. some (req_quota overuse.0 burst.0)
get_attached (suc zero) pos buf = some req_mem_limit
get_attached (suc (suc zero)) pos buf = get_msg_data 8 (buf, pos) >>= λ bytes.
    get_msg_data 4 (buf, bytes.1) >>= λ is_allocate. some (req_mem_update bytes.0 is_allocate.0)
get_attached _ pos buf = none

-- The sender, the id and the request.
unfoldable pub receive : Buffer → Option (Name × ℕ × Payload)
receive buf = parse_request buf >>= λ m. c_string m.name_pos buf >>= λ name.
    get_attached m.type_code m.attached_pos buf >>= λ p. some (name, m.id, p)

-- The attached numbers fit their types.
unfoldable pub Fits : Payload → Type 0
Fits (req_quota overuse burst) = (overuse < 256 ^ 8) × (burst < 256 ^ 8)
Fits req_mem_limit = Unit
Fits (req_mem_update bytes is_allocate) = (bytes < 256 ^ 8) × (is_allocate < 256 ^ 4)

-- What is attached to the answer to a request of that code.
unfoldable pub get_answer : ℕ → ℕ → Buffer → Option Answer
get_answer zero pos buf = get_msg_data 8 (buf, pos) >>= λ quota. some (rsp_quota quota.0)
get_answer (suc zero) pos buf = get_msg_data 8 (buf, pos) >>= λ used.
    get_msg_data 8 (buf, used.1) >>= λ total. some (rsp_mem_limit used.0 total.0)
get_answer (suc (suc zero)) pos buf =
    get_msg_data 4 (buf, pos) >>= λ verdict. some (rsp_mem_update verdict.0)
get_answer _ pos buf = none

-- The id and the answer, which is of the type that was asked for.
unfoldable pub receive_answer : ℕ → Buffer → Option (ℕ × Answer)
receive_answer type_code buf =
    parse_response buf >>= λ m. get_answer type_code m.1 buf >>= λ a. some (m.0, a)

code_bound : (p : Payload) → code p < 256 ^ 4
code_bound (req_quota overuse burst) = omega arith
code_bound req_mem_limit = omega arith
code_bound (req_mem_update bytes is_allocate) = omega arith

-- A name without a zero byte is read up to its terminator.
c_string-append :
    (done name rest : List ℕ)
    → All (λ b. 0 < b) name
    → c_string (length done) (done ++ (name ++ 0 ∷ rest)) ≡ some name
unfolding c_string
c_string-append [] [] rest h = refl
c_string-append [] (zero ∷ name) rest (b, h) = absurd (omega arith)
c_string-append [] (suc b ∷ name) rest (_, h) = rw (c_string-append [] name rest h)
c_string-append (x ∷ done) name rest h = c_string-append done name rest h

-- `get_msg_data-append` in a buffer that is known by an equation.
pub get_msg_data-at :
    (w v pos : ℕ) (buf : Buffer) (done rest : List ℕ)
    → buf ≡ done ++ (to_bytes w v ++ rest)
    → pos ≡ length done
    → v < 256 ^ w
    → get_msg_data w (buf, pos) ≡ some (v, pos + w)
get_msg_data-at w v pos buf done rest here e h = rw here (get_msg_data-append w v pos done rest e h)

get_attached-append :
    (p : Payload) (pos : ℕ) (done rest : List ℕ)
    → Fits p
    → pos ≡ length done
    → get_attached (code p) pos (done ++ (flat (attached p) ++ rest)) ≡ some p
unfolding get_attached Fits
get_attached-append (req_quota overuse burst) pos done rest (ho, hb) e =
    let buf = done ++ (flat (attached (req_quota overuse burst)) ++ rest) in
    rw
      (
        get_msg_data-at 8 overuse pos buf done (to_bytes 8 burst ++ rest) (simp append_assoc) e ho,
        get_msg_data-at 8 burst (pos + 8) buf (done ++ to_bytes 8 overuse) rest (simp append_assoc)
            (omega (arith, length-append done (to_bytes 8 overuse), length-to_bytes 8 overuse)) hb,
      )
      refl
get_attached-append req_mem_limit pos done rest h e = refl
get_attached-append (req_mem_update bytes is_allocate) pos done rest (hb, hi) e =
    let buf = done ++ (flat (attached (req_mem_update bytes is_allocate)) ++ rest) in
    rw
      (
        get_msg_data-at 8 bytes pos buf done (to_bytes 4 is_allocate ++ rest) (simp append_assoc) e
            hb,
        get_msg_data-at 4 is_allocate (pos + 8) buf (done ++ to_bytes 8 bytes) rest
            (simp append_assoc)
            (omega (arith, length-append done (to_bytes 8 bytes), length-to_bytes 8 bytes)) hi,
      )
      refl

pub parse_request-flat :
    (name : Name) (id : ℕ) (p : Payload) (rest : List ℕ)
    → length name < 2 ^ 64 - 9
    → id < 256 ^ 4
    → parse_request (flat (request_data name id p) ++ rest)
      ≡ some (record {
        name_pos = 8;
        name_len = length name;
        id = id;
        type_code = code p;
        attached_pos = 17 + length name;
      })
unfolding parse_request request_data
parse_request-flat name id p rest hn hid =
    rw
      (get_msg_data-at 8 n 0 buf [] (name ++ 0 ∷ (to_bytes 4 id ++ tail)) (simp append_assoc) refl
        (omega arith))
      (rw (offset) (
        rw
          (get_msg_data-at 4 id (9 + n) buf (to_bytes 8 n ++ (name ++ 0 ∷ [])) tail
            (simp append_assoc) front hid)
          (rw
            (get_msg_data-at 4 (code p) (9 + n + 4) buf
              (to_bytes 8 n ++ (name ++ 0 ∷ to_bytes 4 id)) (flat (attached p) ++ rest)
              (simp append_assoc) front' (code_bound p))
            (rw total refl))))
  where
    n : ℕ
    n = length name

    buf : Buffer
    buf = flat (request_data name id p) ++ rest

    tail : List ℕ
    tail = to_bytes 4 (code p) ++ (flat (attached p) ++ rest)

    offset : (8 + (n + 1)) % 2 ^ 64 ≡ 9 + n
    offset = omega arith

    total : 9 + n + 4 + 4 ≡ 17 + n
    total = omega arith

    front : 9 + n ≡ length (to_bytes 8 n ++ (name ++ 0 ∷ []))
    front = omega (
      arith,
      length-append (to_bytes 8 n) (name ++ 0 ∷ []),
      length-append name (0 ∷ []),
      length-to_bytes 8 n,
    )

    front' : 9 + n + 4 ≡ length (to_bytes 8 n ++ (name ++ 0 ∷ to_bytes 4 id))
    front' = omega (
      arith,
      length-append (to_bytes 8 n) (name ++ 0 ∷ to_bytes 4 id),
      length-append name (0 ∷ to_bytes 4 id),
      length-to_bytes 8 n,
      length-to_bytes 4 id,
    )

pub get_attached-flat :
    (name : Name) (id : ℕ) (p : Payload) (rest : List ℕ)
    → Fits p
    → get_attached (code p) (17 + length name) (flat (request_data name id p) ++ rest) ≡ some p
unfolding request_data to_bytes
get_attached-flat name id p rest fits =
    rw split_payload (get_attached-append p (17 + length name) before rest fits length_before)
  where
    before : Buffer
    before = to_bytes 8 (length name) ++ (name ++ 0 ∷ (to_bytes 4 id ++ to_bytes 4 (code p)))

    split_payload : flat (request_data name id p) ++ rest ≡ before ++ (flat (attached p) ++ rest)
    split_payload = simp append_assoc

    length_before : 17 + length name ≡ length before
    length_before = omega (
      arith,
      length-append (to_bytes 8 (length name)) (name ++ 0 ∷ (to_bytes 4 id ++ to_bytes 4 (code p))),
      length-append name (0 ∷ (to_bytes 4 id ++ to_bytes 4 (code p))),
      length-append (to_bytes 4 id) (to_bytes 4 (code p)),
      length-to_bytes 8 (length name),
      length-to_bytes 4 id,
      length-to_bytes 4 (code p),
    )

pub c_string-flat :
    (name : Name) (id : ℕ) (p : Payload) (rest : List ℕ)
    → All (λ b. 0 < b) name
    → c_string 8 (flat (request_data name id p) ++ rest) ≡ some name
unfolding request_data to_bytes
c_string-flat name id p rest text = rw split_name (c_string-append front name tail text)
  where
    front : Buffer
    front = to_bytes 8 (length name)

    tail : List ℕ
    tail = to_bytes 4 id ++ (to_bytes 4 (code p) ++ (flat (attached p) ++ rest))

    split_name : flat (request_data name id p) ++ rest ≡ front ++ (name ++ 0 ∷ tail)
    split_name = simp append_assoc

pub receive-flat :
    (name : Name) (id : ℕ) (p : Payload) (rest : List ℕ)
    → All (λ b. 0 < b) name
    → length name < 2 ^ 64 - 9
    → id < 256 ^ 4
    → Fits p
    → receive (flat (request_data name id p) ++ rest) ≡ some (name, id, p)
unfolding receive
receive-flat name id p rest text hn hid fits =
    rw (parse_request-flat name id p rest hn hid)
      (rw (c_string-flat name id p rest text) (rw (get_attached-flat name id p rest fits) refl))
