-- ===== src/Hook/Accounts.antt =====
-- One process on one device: its own accounting, the Pod manager's, and what CUDA calls answer.
use gemini.Prelude.{
  ℕ, ◌+◌, ◌-◌, ◌^◌, ◌<◌, ◌≤◌, ◌≡◌, refl, [], ◌∷◌, true, false, if◌then◌else◌, ltb, leb, arith,
}
use gemini.PodManager.Memory.{
  Allocations, is_open, add64, sub64, held, modify, change, hook_update_memory_usage, accept,
}
use gemini.PodManager.Accounting.{total, total-modify}
use gemini.Hook.Device.{
  CuResult, success, out_of_memory, Device, intercept, get_gpu_memory_info, update_memory_usage,
  mem_alloc_prehook, mem_alloc_posthook, mem_alloc,
}

-- The process and the Pod manager agree on the memory in use, which is what the process holds and within
-- the limit.
unfoldable pub IsInStep : Device → Type 0
IsInStep s =
    (s.gpu_mem_used ≡ total s.allocation_map)
    × (s.pod_manager.gpu_mem_used ≡ s.gpu_mem_used)
    × (s.gpu_mem_used ≤ s.pod_manager.gpu_mem_limit)
    × (s.pod_manager.gpu_mem_limit < 2 ^ 64)

-- What is left below the limit.
abbrev pub remaining : Device → ℕ
remaining s = s.pod_manager.gpu_mem_limit - s.gpu_mem_used

pub held-unknown : (ptr : ℕ) (m : Allocations) → is_open ptr m ≡ false → held ptr m ≡ 0
unfolding held is_open
held-unknown ptr [] h = refl
held-unknown ptr ((k, v) ∷ m) h = ground (arith, held-unknown ptr m)

-- The state after the query of the memory that is left.
abbrev pub asked : ℕ → Device → Device
asked sockfd s = record s { pod_manager = accept sockfd s.pod_manager }

-- The state after an allocation.
abbrev pub granted : ℕ → ℕ → ℕ → Device → Device
granted sockfd bytesize ptr s = record {
  allocation_map = modify (λ v. bytesize) ptr s.allocation_map;
  gpu_mem_used = add64 s.gpu_mem_used bytesize;
  pod_manager = change (λ v. add64 v bytesize) sockfd (accept sockfd s.pod_manager);
}

remain_test :
    (used limit own bytesize : ℕ)
    → used ≡ own
    → own ≤ limit
    → limit < 2 ^ 64
    → ltb (sub64 limit used) bytesize ≡ ltb (limit - own) bytesize
remain_test used limit own bytesize same le lim = ground arith

pub prehook_result :
    (sockfd bytesize : ℕ) (s : Device)
    → IsInStep s
    → mem_alloc_prehook sockfd bytesize s ≡ (
        if ltb (remaining s) bytesize
        then (out_of_memory, asked sockfd s)
        else (success, asked sockfd s))
unfolding mem_alloc_prehook get_gpu_memory_info IsInStep accept
prehook_result sockfd bytesize s (sum, same, le, lim) =
    rw
      (remain_test s.pod_manager.gpu_mem_used s.pod_manager.gpu_mem_limit s.gpu_mem_used bytesize
        same le lim)
      refl

posthook_result :
    (sockfd ptr bytesize : ℕ) (s : Device)
    → IsInStep s
    → ltb (remaining s) bytesize ≡ false
    → mem_alloc_posthook sockfd ptr bytesize s ≡ (success, granted sockfd bytesize ptr s)
unfolding mem_alloc_posthook update_memory_usage hook_update_memory_usage IsInStep accept
posthook_result sockfd ptr bytesize s (sum, same, le, lim) room = rw (fits) refl
  where
    fits : leb (add64 s.pod_manager.gpu_mem_used bytesize) s.pod_manager.gpu_mem_limit ≡ true
    fits = ground arith

pub asked-IsInStep : (sockfd : ℕ) (s : Device) → IsInStep s → IsInStep (asked sockfd s)
unfolding IsInStep accept
asked-IsInStep sockfd s h = h

pub granted-IsInStep :
    (sockfd bytesize ptr : ℕ) (s : Device)
    → IsInStep s
    → ltb (remaining s) bytesize ≡ false
    → is_open ptr s.allocation_map ≡ false
    → IsInStep (granted sockfd bytesize ptr s)
unfolding IsInStep accept
granted-IsInStep sockfd bytesize ptr s (sum, same, le, lim) room unknown = (
  omega (
    arith,
    within,
    total-modify (λ v. bytesize) ptr s.allocation_map,
    held-unknown ptr s.allocation_map unknown,
  ),
  omega (arith),
  omega (arith, within),
  lim,
)
  where
    within : s.gpu_mem_used + bytesize ≤ s.pod_manager.gpu_mem_limit
    within = ground arith

pub mem_alloc_denied :
    (sockfd sockfd' bytesize ptr : ℕ) (result : CuResult) (s : Device)
    → IsInStep s
    → ltb (remaining s) bytesize ≡ true
    → mem_alloc sockfd sockfd' bytesize result ptr s ≡ (out_of_memory, asked sockfd s)
unfolding mem_alloc intercept
mem_alloc_denied sockfd sockfd' bytesize ptr result s h over =
    rw (prehook_result sockfd bytesize s h, over) refl

pub mem_alloc_room :
    (sockfd sockfd' bytesize ptr : ℕ) (s : Device)
    → IsInStep s
    → ltb (remaining s) bytesize ≡ false
    → mem_alloc sockfd sockfd' bytesize success ptr s
      ≡ (success, granted sockfd' bytesize ptr (asked sockfd s))
unfolding mem_alloc intercept accept
mem_alloc_room sockfd sockfd' bytesize ptr s h room =
    rw (prehook_result sockfd bytesize s h, room)
      (posthook_result sockfd' ptr bytesize (asked sockfd s) (asked-IsInStep sockfd s h) room)
