-- ===== src/Hook/Device.antt =====
-- The memory hooks of src/hook.cpp, for the device that `get_current_device_id` gives, together with
-- its Pod manager. Each request opens a connection of its own, whose socket the Pod manager sees as
-- `sockfd`; the connections stay open. What a CUDA function returns is an argument.
use gemini.Prelude.{ℕ, if◌then◌else◌, ltb, ◌==◌}
use gemini.PodManager.Memory.{
  Allocations, Memory, is_open, add64, sub64, held, modify, erase, hook_update_memory_usage, accept,
}

-- `CUresult`
pub data CuResult : Type 0 where
  success out_of_memory : CuResult
  other : ℕ → CuResult

-- `allocation_map[device]`, `gpu_mem_used[device]` and the other end of the connections.
pub record Device : Type 0 where
  pub allocation_map : Allocations
  pub gpu_mem_used : ℕ
  pub pod_manager : Memory

-- A step that is taken after a success only.
abbrev pub and_then : CuResult × Device → (Device → CuResult × Device) → CuResult × Device
and_then (success, s) f = f s
and_then (out_of_memory, s) f = (out_of_memory, s)
and_then (other n, s) f = (other n, s)

-- A function of `CU_HOOK_GENERATE_INTERCEPT`.
unfoldable pub intercept :
    (Device → CuResult × Device)
    → (Device → CuResult × Device)
    → (Device → CuResult × Device)
    → Device
    → CuResult × Device
intercept pre real post s = and_then (and_then (pre s) real) post

-- A function that has no such hook.
abbrev pub no_hook : Device → CuResult × Device
no_hook s = (success, s)

-- Remaining memory and limit.
unfoldable pub get_gpu_memory_info : ℕ → Device → (ℕ × ℕ) × Device
unfolding accept
get_gpu_memory_info sockfd s =
    let m = accept sockfd s.pod_manager in
    ((sub64 m.gpu_mem_limit m.gpu_mem_used, m.gpu_mem_limit), record s { pod_manager = m })

-- The verdict of the Pod manager.
unfoldable pub update_memory_usage : ℕ → ℕ → ℕ → Device → ℕ × Device
unfolding hook_update_memory_usage accept
update_memory_usage sockfd bytes is_allocate s =
    let (verdict, m) =
      hook_update_memory_usage bytes is_allocate sockfd (accept sockfd s.pod_manager) in
    (verdict, record s { pod_manager = m })

unfoldable pub mem_alloc_prehook : ℕ → ℕ → Device → CuResult × Device
unfolding get_gpu_memory_info
mem_alloc_prehook sockfd bytesize s =
    let ((remain, limit), t) = get_gpu_memory_info sockfd s in
    if ltb remain bytesize then (out_of_memory, t) else (success, t)

unfoldable pub mem_alloc_posthook : ℕ → ℕ → ℕ → Device → CuResult × Device
unfolding update_memory_usage
mem_alloc_posthook sockfd ptr bytesize s =
    let (verdict, t) = update_memory_usage sockfd bytesize 1 s in
    if verdict == 0 then (out_of_memory, t) else (
      success,
      record t {
        allocation_map = modify (λ v. bytesize) ptr t.allocation_map;
        gpu_mem_used = add64 t.gpu_mem_used bytesize;
      },
    )

unfoldable pub mem_free_prehook : ℕ → ℕ → Device → CuResult × Device
unfolding update_memory_usage is_open
mem_free_prehook sockfd ptr s =
    let bytes = held ptr s.allocation_map in
    if is_open ptr s.allocation_map
    then (
      success,
      record ((update_memory_usage sockfd bytes 0 s).1) {
        allocation_map = erase ptr s.allocation_map;
        gpu_mem_used = sub64 s.gpu_mem_used bytes;
      },
    )
    else (success, s)

-- `cuMemAlloc`, of which the driver's function gives a result and a pointer.
unfoldable pub mem_alloc : (sockfd sockfd' bytesize : ℕ) → CuResult → ℕ → Device → CuResult × Device
unfolding intercept mem_alloc_prehook mem_alloc_posthook
mem_alloc sockfd sockfd' bytesize result ptr =
    intercept (mem_alloc_prehook sockfd bytesize) (λ s. (result, s))
      (mem_alloc_posthook sockfd' ptr bytesize)

-- `cuMemFree`
unfoldable pub mem_free : (sockfd ptr : ℕ) → CuResult → Device → CuResult × Device
unfolding intercept mem_free_prehook
mem_free sockfd ptr result = intercept (mem_free_prehook sockfd ptr) (λ s. (result, s)) no_hook
