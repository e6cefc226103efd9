-- ===== src/Comm/Messages.antt =====
-- `prepare_request`, `parse_request`, `prepare_response` and `parse_response`. A `double` is carried as
-- its bit pattern, a number below 2 ^ 64; an `int` and a request id as theirs, below 2 ^ 32.
use gemini.Prelude.{ℕ, ◌+◌, ◌%◌, ◌^◌, Option, none, some, List, [], ◌∷◌, length, Name}
use gemini.Comm.Buffer.{Buffer, Cursor, to_bytes, append_msg_data, get_msg_data, ◌>>=◌}

-- A request with what is attached to it: overuse and burst; bytes and `is_allocate`.
pub data Payload : Type 0 where
  req_quota : ℕ → ℕ → Payload
  req_mem_limit : Payload
  req_mem_update : ℕ → ℕ → Payload

-- The value of `comm_request_t`.
abbrev pub code : Payload → ℕ
code (req_quota overuse burst) = 0
code req_mem_limit = 1
code (req_mem_update bytes is_allocate) = 2

-- What a response attaches: the quota; used and total memory; the verdict.
pub data Answer : Type 0 where
  rsp_quota : ℕ → Answer
  rsp_mem_limit : ℕ → ℕ → Answer
  rsp_mem_update : ℕ → Answer

-- The static variables of `prepare_request`.
pub record Sender : Type 0 where
  pub client_name : Option Name
  pub id : ℕ

-- What `getenv("POD_NAME")` and `gethostname` give.
pub record Environment : Type 0 where
  pub pod_name : Option Name
  pub host_name : Name

abbrev pub req_msg_len : ℕ
req_msg_len = 80

abbrev pub rsp_msg_len : ℕ
rsp_msg_len = 40

unfoldable pub name_of : Environment → Sender → Name
name_of env s = elim s.client_name [
  | some name ↦ name
  | none ↦ elim env.pod_name [ some name ↦ name | none ↦ env.host_name ]
]

abbrev pub attached : Payload → List (List ℕ)
attached (req_quota overuse burst) = to_bytes 8 overuse ∷ to_bytes 8 burst ∷ []
attached req_mem_limit = []
attached (req_mem_update bytes is_allocate) = to_bytes 8 bytes ∷ to_bytes 4 is_allocate ∷ []

-- The data that `prepare_request` appends, in order.
unfoldable pub request_data : Name → ℕ → Payload → List (List ℕ)
request_data name id p =
    to_bytes 8 (length name) ∷ name ∷ (0 ∷ []) ∷ to_bytes 4 id ∷ to_bytes 4 (code p) ∷ attached p

unfoldable pub append_all : List (List ℕ) → Cursor → Option Cursor
append_all [] c = some c
append_all (b ∷ bs) c = append_msg_data b c >>= append_all bs

-- The message, its id, and the static variables afterwards.
unfoldable pub prepare_request :
    Environment → Sender → Payload → Buffer → Option (Buffer × ℕ × Sender)
unfolding request_data
prepare_request env s p buf =
    let name = name_of env s in
    append_all (request_data name s.id p) (buf, 0) >>= λ c.
    some (c.0, s.id, record { client_name = some name; id = (s.id + 1) % 2 ^ 32 })

-- The name stands at offset 8; `attached_pos` is the offset of what is attached.
pub record Parsed : Type 0 where
  pub name_pos : ℕ
  pub name_len : ℕ
  pub id : ℕ
  pub type_code : ℕ
  pub attached_pos : ℕ

unfoldable pub parse_request : Buffer → Option Parsed
parse_request buf = get_msg_data 8 (buf, 0) >>= λ len.
    get_msg_data 4 (buf, (len.1 + (len.0 + 1)) % 2 ^ 64) >>= λ id.
    get_msg_data 4 (buf, id.1) >>= λ type. some (record {
      name_pos = 8;
      name_len = len.0;
      id = id.0;
      type_code = type.0;
      attached_pos = type.1;
    })

abbrev pub answered : Answer → List (List ℕ)
answered (rsp_quota quota) = to_bytes 8 quota ∷ []
answered (rsp_mem_update verdict) = to_bytes 4 verdict ∷ []
answered (rsp_mem_limit used total) = to_bytes 8 used ∷ to_bytes 8 total ∷ []

-- The message and its length.
unfoldable pub prepare_response : ℕ → Answer → Buffer → Option Cursor
prepare_response id a buf = append_all (to_bytes 4 id ∷ answered a) (buf, 0)

-- The id and the offset of what is attached.
unfoldable pub parse_response : Buffer → Option (ℕ × ℕ)
parse_response buf = get_msg_data 4 (buf, 0)
