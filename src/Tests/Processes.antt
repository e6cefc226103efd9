-- ===== src/Tests/Processes.antt =====
-- Two processes under a limit of 1000 bytes.
use gemini.Prelude.{◌≡◌, refl, arith, [], ◌∷◌}
use gemini.PodManager.Memory.{
  Memory, is_open, held, modify, insert, accept, retrieve_mem_info, hook_update_memory_usage,
}
use gemini.Hook.Device.{
  Device, success, out_of_memory, update_memory_usage, get_gpu_memory_info, mem_alloc_prehook,
  mem_alloc_posthook,
}
use gemini.Hook.Shared.{Local, local, at_pod, alloc_pre, alloc_post, run_hook, IsPlausible}
use gemini.Hook.Interleaved.{Shared, starts, joins, calls, IsShared, Shared-IsShared}

abbrev empty : Local
empty = record { allocation_map = []; gpu_mem_used = 0 }

-- The Pod manager after both have asked, and after the first has allocated 600 bytes.
abbrev pod : Memory
pod = retrieve_mem_info 0 1000

abbrev asked_first : Device
asked_first = (run_hook (alloc_pre 3 600) (at_pod empty pod)).1

abbrev asked_second : Device
asked_second = (run_hook (alloc_pre 4 600) (at_pod empty asked_first.pod_manager)).1

abbrev allocated : Device
allocated = (run_hook (alloc_post 5 77 600) (at_pod (local asked_first) asked_second.pod_manager)).1

two_processes : Shared pod (local allocated ∷ local asked_second ∷ []) allocated.pod_manager
unfolding IsPlausible run_hook mem_alloc_prehook mem_alloc_posthook get_gpu_memory_info
    update_memory_usage hook_update_memory_usage accept insert is_open retrieve_mem_info held modify
two_processes =
    calls [] (local asked_first) (local asked_second ∷ [])
      (calls (local asked_first ∷ []) empty []
        (calls [] empty (empty ∷ []) (joins (joins starts)) (alloc_pre 3 600) tt) (alloc_pre 4 600)
        tt)
      (alloc_post 5 77 600) (refl, omega arith)

two_processes_share :
    IsShared 1000 (local allocated ∷ local asked_second ∷ []) allocated.pod_manager
two_processes_share = Shared-IsShared (omega arith) two_processes

-- The prehooks of both find room; the posthook of the second is denied, after its driver has allocated.
denied_afterwards :
    ((run_hook (alloc_pre 4 600) (at_pod empty asked_first.pod_manager)).0 ≡ success)
    × ((run_hook (alloc_post 6 78 600) (at_pod (local asked_second) allocated.pod_manager)).0
        ≡ out_of_memory)
unfolding run_hook mem_alloc_prehook mem_alloc_posthook get_gpu_memory_info update_memory_usage
    hook_update_memory_usage accept insert is_open retrieve_mem_info held modify
denied_afterwards = (refl, refl)
