-- ===== src/Scheduler/Requests.antt =====
-- The requests of clients: `read_resource_config` and `handle_message`. The text of the file and the
-- bytes of a message are taken apart elsewhere: a line of the file is a `Line`, a message a `Request`.
use gemini.Prelude.{ℕ, Option, none, some, List, [], ◌∷◌, ◌++◌, if◌then◌else◌, Name, name_eq}
use gemini.Double.{Double}
use gemini.Scheduler.Defs.{ClientInfo, client_info, set_burst, update_return_time}
use gemini.Scheduler.Select.{ClientMap, Scheduler, find_client}

-- A line of the resource file.
pub record Line (D : Type 0) : Type 0 where
  pub client_name : Name
  pub gpu_min_fraction : D
  pub gpu_max_fraction : D
  pub gpu_memory_size : ℕ

pub data Request (D : Type 0) : Type 0 where
  -- overuse and burst
  req_quota : D → D → Request D
  req_mem_limit req_mem_update req_unknown : Request D

pub data Response : Type 0 where
  -- request id, used memory and total memory
  mem_limit : ℕ → ℕ → ℕ → Response
  -- request id and verdict
  mem_update : ℕ → ℕ → Response

module _ {D : Type 0} where
  -- `client_info_map[name] = c`
  unfoldable pub put_client : Name → ClientInfo D → ClientMap D → ClientMap D
  put_client n c [] = (n, c) ∷ []
  put_client n c ((m, e) ∷ cs) = if name_eq m n then (m, c) ∷ cs else (m, e) ∷ put_client n c cs

module _ {D : Type 0} ⦃d : Double D⦄ where
  unfoldable pub read_line : Scheduler D → Line D → Scheduler D
  unfolding put_client client_info
  read_line s l =
      let c =
        client_info l.client_name l.gpu_memory_size s.base_quota s.min_quota
          (d.mul l.gpu_max_fraction s.window_size) l.gpu_min_fraction l.gpu_max_fraction in
      record s { client_info_map = put_client l.client_name c s.client_info_map }

  unfoldable pub read_resource_config : Scheduler D → List (Line D) → Scheduler D
  read_resource_config s [] = s
  read_resource_config s (l ∷ ls) = read_resource_config (read_line s l) ls

  -- A request for the token: the previous token ends, and the client waits for the next. The two
  -- times are those at which the clock is read.
  unfoldable pub request_quota :
      ℕ → Name → ℕ → (overuse burst now arrived : D) → ClientInfo D → Scheduler D → Scheduler D
  unfolding update_return_time set_burst put_client
  request_quota socket name req_id overuse burst now arrived info s =
      let (info', history) = update_return_time info overuse now s.history_list in
      record s {
        history_list = history;
        client_info_map = put_client name (set_burst info' burst) s.client_info_map;
        candidates =
            s.candidates
            ++ record { socket = socket; name = name; req_id = req_id; arrived_time = arrived }
              ∷ [];
      }

  unfoldable pub dispatch :
      ℕ
      → Name
      → ℕ
      → (now arrived : D) → ClientInfo D
      → Scheduler D
      → Request D
      → Scheduler D × Option Response
  unfolding request_quota
  dispatch socket name req_id now arrived info s (req_quota overuse burst) =
      (request_quota socket name req_id overuse burst now arrived info s, none)
  dispatch socket name req_id now arrived info s req_mem_limit =
      (s, some (mem_limit req_id 0 info.gpu_mem_limit))
  dispatch socket name req_id now arrived info s req_mem_update = (s, some (mem_update req_id 1))
  dispatch socket name req_id now arrived info s req_unknown = (s, none)

  -- A message of an unknown client is ignored.
  unfoldable pub handle_message :
      ℕ → Name → ℕ → Request D → (now arrived : D) → Scheduler D → Scheduler D × Option Response
  unfolding dispatch find_client
  handle_message socket name req_id req now arrived s = elim (find_client name s.client_info_map) [
    | none ↦ (s, none)
    | some info ↦ dispatch socket name req_id now arrived info s req
  ]

-- A message as a thread that serves a connection handles it, with the times at which it reads the
-- clock.
pub record Message (D : Type 0) : Type 0 where
  pub socket : ℕ
  pub sender : Name
  pub req_id : ℕ
  pub request : Request D
  pub now : D
  pub arrived : D

module _ {D : Type 0} ⦃d : Double D⦄ where
  unfoldable pub handle_messages : Scheduler D → List (Message D) → Scheduler D
  handle_messages s [] = s
  handle_messages s (m ∷ ms) =
      handle_messages (handle_message m.socket m.sender m.req_id m.request m.now m.arrived s).0 ms
