-- ===== src/Tests/Limits.antt =====
-- A process of the client "ab", which may have 300 bytes by the resource file, allocates 200.
use gemini.Prelude.{◌≡◌, refl, arith, some, [], ◌∷◌, map, name_eq}
use gemini.Prelude.Int.{pos}
use gemini.Double.{fixed_double}
use gemini.Comm.Messages.{Environment, name_of}
use gemini.Scheduler.Requests.{read_resource_config}
use gemini.Scheduler.Config.{last_line}
use gemini.Scheduler.ResourceText.{line_of, file_text}
use gemini.PodManager.Memory.{
  Memory, is_open, held, modify, insert, accept, retrieve_mem_info, hook_update_memory_usage,
}
use gemini.Hook.Device.{
  Device, update_memory_usage, get_gpu_memory_info, mem_alloc_prehook, mem_alloc_posthook,
}
use gemini.Hook.Shared.{local, at_pod, alloc_pre, alloc_post, run_hook, IsPlausible}
use gemini.Hook.Interleaved.{Shared, starts, joins, calls, IsShared}
use gemini.Limits.{bring_up, bring_up-IsShared}
use gemini.Tests.Schedulers.{busy, now}
use gemini.Tests.ResourceFiles.{one_place, two, entry, entries, stale, entries-IsWritten}
use gemini.Tests.SchedulerWires.{of_bits, sender}

abbrev env : Environment
env = record { pod_name = some (97 ∷ 98 ∷ []); host_name = 104 ∷ [] }

abbrev pod : Memory
pod = retrieve_mem_info 0 300

abbrev asked : Device
asked =
    (run_hook (alloc_pre 3 200) (at_pod (record { allocation_map = []; gpu_mem_used = 0 }) pod)).1

abbrev allocated : Device
allocated = (run_hook (alloc_post 5 77 200) (at_pod (local asked) asked.pod_manager)).1

one_process : Shared pod (local allocated ∷ []) allocated.pod_manager
unfolding IsPlausible run_hook mem_alloc_prehook mem_alloc_posthook get_gpu_memory_info
    update_memory_usage hook_update_memory_usage accept insert is_open retrieve_mem_info held modify
one_process =
    calls [] (local asked) []
      (calls [] (record { allocation_map = []; gpu_mem_used = 0 }) [] (joins starts)
        (alloc_pre 3 200) tt)
      (alloc_post 5 77 200) (refl, omega arith)

bring_up-IsShared_example :
    (bring_up one_place of_bits env sender 4 now now (pos 7) stale (file_text two entries) busy
      ≡ some (read_resource_config busy (map line_of entries), retrieve_mem_info 0 300))
    × IsShared 300 (local allocated ∷ []) allocated.pod_manager
unfolding last_line name_of name_eq
bring_up-IsShared_example =
    bring_up-IsShared one_place of_bits env sender 4 now now two entries
      (line_of (entry (97 ∷ 98 ∷ []) 2 5 (record { first = 3; others = 0 ∷ 0 ∷ [] }))) (pos 7) stale
      busy (local allocated ∷ []) allocated.pod_manager (omega arith, tt) (omega arith)
      (omega arith) entries-IsWritten refl (omega arith) (omega arith, (omega arith, tt))
      (omega arith) one_process
