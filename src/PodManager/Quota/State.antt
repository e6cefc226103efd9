-- ===== src/PodManager/Quota/State.antt =====
-- The globals that the threads of src/pod-manager.cpp share for the quota, and where each thread
-- stands. A thread takes a mutex, works and releases it in one step.
use gemini.Prelude.{ℕ, ◌==◌, Bool, Option, none, some, List, [], ◌∷◌, if◌then◌else◌}
use gemini.Double.{Double, max_d}
use gemini.Predictor.RecordKeeper.{Timepoint, since, microseconds}

-- Where a hook thread stands in `hook_kernel_launch`, with the local variables that are live there.
pub data HookPc (D : Type 0) : Type 0 where
  -- in `recv`
  idle : HookPc D
  -- at the head of the first loop, and in its `pthread_cond_wait`
  entered blocked : (overuse_ms burst : D) → HookPc D
  -- behind that loop, behind the update of the overuse, behind that of the burst
  free : (overuse_ms burst : D) → HookPc D
  noted recorded : (burst : D) → HookPc D
  -- with the quota expired, behind `quota_state = 1`, behind the maximum of the bursts
  expired marked : HookPc D
  estimated : (max_burst : D) → HookPc D
  -- at the head of the loop for the response, in its `pthread_cond_wait`, and behind that
  placed asleep woken : (req_id : ℕ) → HookPc D
  -- before `quota_state = 0`, before the return
  leaving done : (elapsed_time : D) → HookPc D

-- Where `scheduler_thread_send_func` stands: before, in and behind `pthread_cond_wait`.
pub data SenderPc : Type 0 where
  ready waiting signalled : SenderPc

-- The data of a request.
pub record Request (D : Type 0) : Type 0 where
  pub req_id : ℕ
  pub overuse_ms : D
  pub max_burst : D

-- `sent` are the requests that the scheduler has and has not answered, `dropped` those whose `send` failed.
pub record System (D : Type 0) : Type 0 where
  pub quota_state : Bool
  pub pod_overuse_ms : D
  pub client_burst_map : List (ℕ × D)
  pub pod_quota : D
  pub quota_updated_tp : Timepoint
  pub request_queue : List (Request D)
  pub response_map : List (ℕ × D)
  pub next_id : ℕ
  pub sent : List (Request D)
  pub dropped : List (Request D)
  pub sender : SenderPc
  pub hooks : ℕ → HookPc D

abbrev pub update : {A : Type 0} → (ℕ → A) → ℕ → A → ℕ → A
update f i a j = if i == j then a else f j

-- `pthread_cond_signal(&req_queue_cond)`, which is lost where nobody waits
unfoldable pub signal : SenderPc → SenderPc
signal waiting = signalled
signal p = p

module _ {D : Type 0} where
  -- `pthread_cond_broadcast(&quota_state_cond)`
  unfoldable pub wake_blocked : HookPc D → HookPc D
  wake_blocked (blocked overuse_ms burst) = entered overuse_ms burst
  wake_blocked p = p

  -- `pthread_cond_broadcast(&rsp_map_cond)`
  unfoldable pub wake_asleep : HookPc D → HookPc D
  wake_asleep (asleep req_id) = woken req_id
  wake_asleep p = p

  -- `m[k] = v`
  unfoldable pub put : ℕ → D → List (ℕ × D) → List (ℕ × D)
  put k v [] = (k, v) ∷ []
  put k v ((j, w) ∷ m) = if j == k then (j, v) ∷ m else (j, w) ∷ put k v m

  unfoldable pub find : ℕ → List (ℕ × D) → Option D
  find k [] = none
  find k ((j, w) ∷ m) = if j == k then some w else find k m

  -- `m.insert(std::make_pair(k, v))`
  unfoldable pub insert_response : ℕ → D → List (ℕ × D) → List (ℕ × D)
  insert_response k v [] = (k, v) ∷ []
  insert_response k v ((j, w) ∷ m) = if j == k then (j, w) ∷ m else (j, w) ∷ insert_response k v m

  -- `m.erase(k)`
  unfoldable pub erase_key : ℕ → List (ℕ × D) → List (ℕ × D)
  erase_key k [] = []
  erase_key k ((j, w) ∷ m) = if j == k then m else (j, w) ∷ erase_key k m

module _ {D : Type 0} ⦃d : Double D⦄ where
  -- `for (auto x : client_burst_map) max_burst = std::max(x.second, max_burst);`
  unfoldable pub max_burst_from : D → List (ℕ × D) → D
  max_burst_from max_burst [] = max_burst
  max_burst_from max_burst ((k, v) ∷ m) = max_burst_from (max_d v max_burst) m

  unfoldable pub elapsed_since : Timepoint → Timepoint → D
  elapsed_since quota_updated_tp now = d.of_us (microseconds (since now quota_updated_tp))
