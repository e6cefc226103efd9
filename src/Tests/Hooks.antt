-- ===== src/Tests/Hooks.antt =====
-- A process with a limit of 1000 bytes.
use gemini.Prelude.{ℕ, ◌≡◌, refl, arith}
use gemini.PodManager.Memory.{
  is_open, held, modify, insert, erase, hook_update_memory_usage, accept, retrieve_mem_info,
}
use gemini.PodManager.Accounting.{total}
use gemini.Hook.Device.{
  success, out_of_memory, Device, intercept, get_gpu_memory_info, update_memory_usage,
  mem_alloc_prehook, mem_alloc_posthook, mem_free_prehook, mem_alloc, mem_free,
}
use gemini.Hook.Arrays.{
  float, Descriptor, array_bytes, pitched, array, allocate, mem_get_info, counted, is_counted,
  allocate-mem_alloc, allocate-mem_get_info,
}
use gemini.Hook.Accounts.{IsInStep}
use gemini.Hook.Process.{
  fresh, Process, starts, allocates, frees, Process-IsInStep, mem_alloc_result,
}

-- The driver gives the pointer 4096 to the first allocation.
abbrev one_block : Device
one_block = (mem_alloc 4 5 700 success 4096 (fresh 1000)).1

abbrev none_left : Device
none_left = (mem_free 6 4096 success one_block).1

one_block-Process : Process 1000 one_block
unfolding is_open retrieve_mem_info
one_block-Process = allocates starts 4 5 700 4096 success (λ _. refl)

freed_all : none_left.gpu_mem_used ≡ 0
unfolding mem_alloc mem_free mem_alloc_prehook mem_alloc_posthook mem_free_prehook intercept
    get_gpu_memory_info update_memory_usage hook_update_memory_usage accept insert modify erase held
    is_open retrieve_mem_info
freed_all = refl

process-IsInStep : IsInStep none_left
process-IsInStep =
    Process-IsInStep 1000 none_left (omega arith) (frees one_block-Process 6 4096 success)

-- 400 more bytes are too many.
mem_alloc_result_example : (mem_alloc 6 7 400 success 8192 one_block).0 ≡ out_of_memory
unfolding mem_alloc mem_alloc_prehook mem_alloc_posthook intercept get_gpu_memory_info
    update_memory_usage hook_update_memory_usage accept insert modify held is_open retrieve_mem_info
    total
mem_alloc_result_example =
    mem_alloc_result 1000 one_block 6 7 400 8192 success (omega arith) one_block-Process (λ _. refl)

-- A row of 10 floats, which is one-dimensional, counts as nothing; with a height of 1 it does not.
abbrev row : ℕ → Descriptor
row height = record { width = 10; height = height; depth = 0; num_channels = 1; format = float }

one_dimensional : array_bytes (row 0) ≡ 0
unfolding array_bytes
one_dimensional = refl

two_dimensional : array_bytes (row 1) ≡ 40
unfolding array_bytes
two_dimensional = refl

array_like_bytes :
    allocate 6 7 (array (row 1)) success 8192 one_block ≡ mem_alloc 6 7 40 success 8192 one_block
unfolding counted is_counted
array_like_bytes = allocate-mem_alloc 6 7 8192 (array (row 1)) success one_block refl

allocate-mem_get_info_example :
    (allocate 6 7 (pitched 256 256 2) success 8192 one_block).0 ≡ out_of_memory
unfolding mem_get_info counted is_counted mem_alloc mem_alloc_prehook mem_alloc_posthook intercept
    get_gpu_memory_info update_memory_usage hook_update_memory_usage accept insert modify held
    is_open retrieve_mem_info total
allocate-mem_get_info_example =
    allocate-mem_get_info 1000 one_block 6 7 8 8192 (pitched 256 256 2) success (omega arith)
      one_block-Process refl (λ _. refl)
