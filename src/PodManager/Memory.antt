-- ===== src/PodManager/Memory.antt =====
-- The memory limit: `hook_update_memory_usage`, the entry that `main` creates for a connection and
-- what `hook_thread_func` gives back when the connection is closed. Each is one step of a history; all
-- but the insertion of the entry run under `mem_info_mutex`.
use gemini.Prelude.{
  Bool, true, false, ℕ, zero, suc, ◌+◌, ◌-◌, ◌%◌, ◌^◌, List, [], ◌∷◌, if◌then◌else◌, leb, ◌==◌,
}

-- `allocation_map`: at most one entry for a socket.
abbrev pub Allocations : Type 0
Allocations = List (ℕ × ℕ)

pub record Memory : Type 0 where
  pub gpu_mem_limit : ℕ
  pub gpu_mem_used : ℕ
  pub allocation_map : Allocations

-- `size_t` addition and subtraction.
abbrev pub add64 : ℕ → ℕ → ℕ
add64 a b = (a + b) % 2 ^ 64

abbrev pub sub64 : ℕ → ℕ → ℕ
sub64 a b = (a + (2 ^ 64 - b)) % 2 ^ 64

-- `allocation_map[sockfd]`, 0 where there is no entry.
unfoldable pub held : ℕ → Allocations → ℕ
held sockfd [] = 0
held sockfd ((k, v) ∷ m) = if k == sockfd then v else held sockfd m

-- Whether `find` finds an entry.
unfoldable pub is_open : ℕ → Allocations → Bool
is_open sockfd [] = false
is_open sockfd ((k, v) ∷ m) = let rest = is_open sockfd m in if k == sockfd then true else rest

-- `allocation_map[sockfd] = f(allocation_map[sockfd])`
unfoldable pub modify : (ℕ → ℕ) → ℕ → Allocations → Allocations
modify f sockfd [] = (sockfd, f 0) ∷ []
modify f sockfd ((k, v) ∷ m) =
    let rest = modify f sockfd m in if k == sockfd then (k, f v) ∷ m else (k, v) ∷ rest

-- `allocation_map.insert(std::make_pair(sockfd, 0))`
unfoldable pub insert : ℕ → Allocations → Allocations
insert sockfd [] = (sockfd, 0) ∷ []
insert sockfd ((k, v) ∷ m) =
    let rest = insert sockfd m in if k == sockfd then (k, v) ∷ m else (k, v) ∷ rest

-- `allocation_map.erase(sockfd)`
unfoldable pub erase : ℕ → Allocations → Allocations
erase sockfd [] = []
erase sockfd ((k, v) ∷ m) = let rest = erase sockfd m in if k == sockfd then m else (k, v) ∷ rest

-- The state with `gpu_mem_used` and the entry of the socket changed in the same way.
abbrev pub change : (ℕ → ℕ) → ℕ → Memory → Memory
change f sockfd s = record {
  gpu_mem_limit = s.gpu_mem_limit;
  gpu_mem_used = f s.gpu_mem_used;
  allocation_map = modify f sockfd s.allocation_map;
}

-- The verdict and the state afterwards.
unfoldable pub hook_update_memory_usage : ℕ → ℕ → ℕ → Memory → ℕ × Memory
hook_update_memory_usage mem_size zero sockfd s = (1, change (λ v. sub64 v mem_size) sockfd s)
hook_update_memory_usage mem_size (suc _) sockfd s =
    if leb (add64 s.gpu_mem_used mem_size) s.gpu_mem_limit
    then (1, change (λ v. add64 v mem_size) sockfd s)
    else (0, s)

-- What `main` does with an accepted connection.
unfoldable pub accept : ℕ → Memory → Memory
accept sockfd s = record {
  gpu_mem_limit = s.gpu_mem_limit;
  gpu_mem_used = s.gpu_mem_used;
  allocation_map = insert sockfd s.allocation_map;
}

-- The end of `hook_thread_func`.
unfoldable pub close : ℕ → Memory → Memory
close sockfd s = record {
  gpu_mem_limit = s.gpu_mem_limit;
  gpu_mem_used = sub64 s.gpu_mem_used (held sockfd s.allocation_map);
  allocation_map = erase sockfd s.allocation_map;
}

-- `gpu_mem_used` and `gpu_mem_limit` after the answer of the scheduler.
unfoldable pub retrieve_mem_info : ℕ → ℕ → Memory
retrieve_mem_info used total = record {
  gpu_mem_limit = total;
  gpu_mem_used = used;
  allocation_map = [];
}

pub data Event : Type 0 where
  accepted : ℕ → Event
  updated : ℕ → ℕ → ℕ → Event
  closed : ℕ → Event

unfoldable pub step : Event → Memory → Memory
step (accepted sockfd) s = accept sockfd s
step (updated mem_size allocate sockfd) s = (hook_update_memory_usage mem_size allocate sockfd s).1
step (closed sockfd) s = close sockfd s
