-- ===== src/Hook/Arrays.antt =====
-- The allocation functions of src/hook.cpp other than `cuMemAlloc`, and the queries of the memory. Sizes
-- are computed in `size_t`.
use gemini.Prelude.{
  ℕ, ◌-◌, ◌*◌, ◌%◌, ◌^◌, ◌<◌, ◌≡◌, refl, sym, Bool, true, false, ltb, ◌==◌, ==_iff, ap, ◌∙◌,
  if◌then◌else◌, arith,
}
use gemini.PodManager.Memory.{accept, is_open}
use gemini.Hook.Device.{
  CuResult, success, out_of_memory, Device, intercept, no_hook, get_gpu_memory_info,
  mem_alloc_prehook, mem_alloc_posthook, mem_alloc,
}
use gemini.Hook.Process.{Process, Process-IsInStep, mem_alloc_result}
use gemini.Hook.Accounts.{IsInStep}

-- `CUarray_format`
pub data ArrayFormat : Type 0 where
  unsigned_int8 unsigned_int16 unsigned_int32 signed_int8 signed_int16 signed_int32 : ArrayFormat
  half float : ArrayFormat

unfoldable pub format_size : ArrayFormat → ℕ
format_size unsigned_int8 = 1
format_size signed_int8 = 1
format_size unsigned_int16 = 2
format_size signed_int16 = 2
format_size half = 2
format_size unsigned_int32 = 4
format_size signed_int32 = 4
format_size float = 4

abbrev pub mul64 : ℕ → ℕ → ℕ
mul64 a b = a * b % 2 ^ 64

-- `CUDA_ARRAY3D_DESCRIPTOR`, and without the depth `CUDA_ARRAY_DESCRIPTOR`
pub record Descriptor : Type 0 where
  pub width : ℕ
  pub height : ℕ
  pub depth : ℕ
  pub num_channels : ℕ
  pub format : ArrayFormat

unfoldable pub array_bytes : Descriptor → ℕ
unfolding format_size
array_bytes a = mul64 (mul64 (mul64 a.width a.height) a.num_channels) (format_size a.format)

unfoldable pub array3d_bytes : Descriptor → ℕ
unfolding format_size
array3d_bytes a =
    mul64 (mul64 (mul64 (mul64 a.width a.height) a.depth) a.num_channels) (format_size a.format)

-- A call that allocates. `cuMemAllocPitch` reads the pitch before and after the driver writes it.
pub data Allocation : Type 0 where
  linear : (bytesize : ℕ) → Allocation
  pitched : (pitch_before pitch_after height : ℕ) → Allocation
  array array3d : Descriptor → Allocation
  managed mipmapped : Allocation

unfoldable pub allocation_prehook : ℕ → Allocation → Device → CuResult × Device
unfolding mem_alloc_prehook array_bytes array3d_bytes
allocation_prehook sockfd (linear bytesize) = mem_alloc_prehook sockfd bytesize
allocation_prehook sockfd (pitched pitch_before pitch_after height) =
    mem_alloc_prehook sockfd (mul64 pitch_before height)
allocation_prehook sockfd (array a) = mem_alloc_prehook sockfd (array_bytes a)
allocation_prehook sockfd (array3d a) = mem_alloc_prehook sockfd (array3d_bytes a)
allocation_prehook sockfd managed = no_hook
allocation_prehook sockfd mipmapped = no_hook

unfoldable pub allocation_posthook : ℕ → ℕ → Allocation → Device → CuResult × Device
unfolding mem_alloc_posthook array_bytes array3d_bytes
allocation_posthook sockfd ptr (linear bytesize) = mem_alloc_posthook sockfd ptr bytesize
allocation_posthook sockfd ptr (pitched pitch_before pitch_after height) =
    mem_alloc_posthook sockfd ptr (mul64 pitch_after height)
allocation_posthook sockfd ptr (array a) = mem_alloc_posthook sockfd ptr (array_bytes a)
allocation_posthook sockfd ptr (array3d a) = mem_alloc_posthook sockfd ptr (array3d_bytes a)
allocation_posthook sockfd ptr managed = no_hook
allocation_posthook sockfd ptr mipmapped = no_hook

-- The intercepted function, of which the driver's gives a result and a pointer or handle.
unfoldable pub allocate :
    (sockfd sockfd' : ℕ) → Allocation → CuResult → ℕ → Device → CuResult × Device
unfolding intercept allocation_prehook allocation_posthook
allocate sockfd sockfd' a result ptr =
    intercept (allocation_prehook sockfd a) (λ s. (result, s)) (allocation_posthook sockfd' ptr a)

-- `cuMemGetInfo`: free and total memory, and `cuDeviceTotalMem`.
unfoldable pub mem_get_info : ℕ → Device → (ℕ × ℕ) × Device
unfolding get_gpu_memory_info
mem_get_info sockfd s = get_gpu_memory_info sockfd s

unfoldable pub device_total_mem : ℕ → Device → ℕ × Device
unfolding get_gpu_memory_info
device_total_mem sockfd s = let (info, t) = get_gpu_memory_info sockfd s in (info.1, t)

-- What an allocation is counted as, where its hooks count the same.
unfoldable pub counted : Allocation → ℕ
unfolding array_bytes array3d_bytes
counted (linear bytesize) = bytesize
counted (pitched pitch_before pitch_after height) = mul64 pitch_after height
counted (array a) = array_bytes a
counted (array3d a) = array3d_bytes a
counted managed = 0
counted mipmapped = 0

-- Whether the size that is checked is the one that is counted.
unfoldable pub is_counted : Allocation → Bool
is_counted (linear bytesize) = true
is_counted (pitched pitch_before pitch_after height) = pitch_before == pitch_after
is_counted (array a) = true
is_counted (array3d a) = true
is_counted managed = false
is_counted mipmapped = false

-- Where the size that is checked is the one that is counted, every allocation function does what
-- `cuMemAlloc` does with that size.
pub allocate-mem_alloc :
    (sockfd sockfd' ptr : ℕ) (a : Allocation) (result : CuResult) (s : Device)
    → is_counted a ≡ true
    → allocate sockfd sockfd' a result ptr s ≡ mem_alloc sockfd sockfd' (counted a) result ptr s
unfolding allocate mem_alloc counted is_counted
allocate-mem_alloc sockfd sockfd' ptr (linear bytesize) result s h = refl
allocate-mem_alloc sockfd sockfd' ptr (pitched before after height) result s h =
    rw ((==_iff before after).0 h) refl
allocate-mem_alloc sockfd sockfd' ptr (array a) result s h = refl
allocate-mem_alloc sockfd sockfd' ptr (array3d a) result s h = refl
allocate-mem_alloc sockfd sockfd' ptr managed result s h = absurd (ground arith)
allocate-mem_alloc sockfd sockfd' ptr mipmapped result s h = absurd (ground arith)

mem_get_info-free :
    (sockfd : ℕ) (s : Device)
    → IsInStep s
    → (mem_get_info sockfd s).0.0 ≡ s.pod_manager.gpu_mem_limit - s.gpu_mem_used
unfolding mem_get_info IsInStep accept
mem_get_info-free sockfd s (sum, same, le, lim) = omega arith

-- After any allocations and frees of a process that has the Pod manager for itself, `cuMemGetInfo` says
-- how much it can still allocate: the next counted allocation is out of memory exactly if its size is
-- beyond the free memory that was told, and else answers what the driver answers.
pub allocate-mem_get_info :
    (limit : ℕ) (s : Device) (sockfd sockfd' sockfd'' ptr : ℕ) (a : Allocation) (result : CuResult)
    → limit < 2 ^ 64
    → Process limit s
    → is_counted a ≡ true
    → (result ≡ success → is_open ptr s.allocation_map ≡ false)
    → (allocate sockfd sockfd' a result ptr s).0
      ≡ (if ltb (mem_get_info sockfd'' s).0.0 (counted a) then out_of_memory else result)
unfolding IsInStep
allocate-mem_get_info limit s sockfd sockfd' sockfd'' ptr a result lim p h unknown =
    let inv = Process-IsInStep limit s lim p in
    ap (λ r. r.0) (allocate-mem_alloc sockfd sockfd' ptr a result s h)
    ∙ (mem_alloc_result limit s sockfd sockfd' (counted a) ptr result lim p unknown
        ∙ ap (λ n. if ltb n (counted a) then out_of_memory else result)
            (ap (λ n. s.pod_manager.gpu_mem_limit - n) (sym inv.0)
              ∙ sym (mem_get_info-free sockfd'' s inv)))
