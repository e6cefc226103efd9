-- ===== src/Tests/PodManagers.antt =====
-- Two hook libraries that share 1000 bytes.
use gemini.Prelude.{◌≡◌, refl, [], ◌∷◌, arith}
use gemini.PodManager.Memory.{
  is_open, Memory, held, modify, insert, hook_update_memory_usage, accept, accepted, updated, step,
  retrieve_mem_info,
}
use gemini.PodManager.Accounting.{total, Allowed, Run, start, next, IsAccounted, Run-IsAccounted}
use gemini.PodManager.Balance.{IsTyped, IsBalanced, Run-IsBalanced}
use gemini.PodManager.Updates.{update_verdict, allocate_free}

abbrev two_open : Memory
two_open = step (accepted 5) (step (accepted 4) (retrieve_mem_info 0 1000))

abbrev shared : Memory
shared = step (updated 400 1 4) two_open

shared-Run : Run Allowed (retrieve_mem_info 0 1000) shared
unfolding Allowed step accept retrieve_mem_info
shared-Run =
    next (next (next start (accepted 4) tt) (accepted 5) tt) (updated 400 1 4) (omega arith)

shared_state :
    shared
    ≡ record { gpu_mem_limit = 1000; gpu_mem_used = 400; allocation_map = (4, 400) ∷ (5, 0) ∷ [] }
unfolding step accept hook_update_memory_usage insert modify retrieve_mem_info
shared_state = refl

shared-IsAccounted : IsAccounted shared
shared-IsAccounted = Run-IsAccounted 1000 shared (omega arith) shared-Run

-- 700 more bytes are too many.
update_verdict_example : hook_update_memory_usage 700 1 5 shared ≡ (0, shared)
unfolding total step accept hook_update_memory_usage insert modify retrieve_mem_info
update_verdict_example = update_verdict 1000 shared 700 0 5 (omega arith) shared-Run

allocated_and_freed : step (updated 600 0 5) (step (updated 600 1 5) shared) ≡ shared
unfolding is_open held step accept hook_update_memory_usage insert modify retrieve_mem_info
allocated_and_freed =
    allocate_free 600 0 5 shared refl (omega arith) (omega arith) (omega arith) refl

-- What was allocated over one connection is freed over another.
abbrev crossed : Memory
crossed = step (updated 400 0 5) shared

crossed-Run : Run IsTyped (retrieve_mem_info 0 1000) crossed
unfolding IsTyped step accept retrieve_mem_info
crossed-Run =
    next (next (next (next start (accepted 4) tt) (accepted 5) tt) (updated 400 1 4) (omega arith))
      (updated 400 0 5) (omega arith)

Run-IsBalanced_example : IsBalanced crossed
Run-IsBalanced_example = Run-IsBalanced 1000 crossed crossed-Run
