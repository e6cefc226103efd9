-- ===== src/Hook/Process.antt =====
-- The calls that a process makes, one after the other.
use gemini.Prelude.{
  ℕ, ◌-◌, ◌^◌, ◌<◌, ◌≡◌, refl, ap, ◌∙◌, [], true, false, if◌then◌else◌, ltb, arith, Bool-cases, inl,
  inr,
}
use gemini.PodManager.Memory.{
  is_open, sub64, held, erase, change, hook_update_memory_usage, accept, retrieve_mem_info,
}
use gemini.PodManager.Accounting.{total, total-erase, held_le_total}
use gemini.Hook.Device.{
  CuResult, success, out_of_memory, other, Device, intercept, update_memory_usage, mem_free_prehook,
  mem_alloc, mem_free,
}
use gemini.Hook.Accounts.{
  IsInStep, remaining, asked, asked-IsInStep, granted-IsInStep, mem_alloc_denied, mem_alloc_room,
  prehook_result,
}

-- Where there is room, the call answers what the driver answers, and only a success is accounted for.
mem_alloc_answer :
    (sockfd sockfd' bytesize ptr : ℕ) (result : CuResult) (s : Device)
    → IsInStep s
    → ltb (remaining s) bytesize ≡ false
    → (result ≡ success → is_open ptr s.allocation_map ≡ false)
    → ((mem_alloc sockfd sockfd' bytesize result ptr s).0 ≡ result)
      × IsInStep (mem_alloc sockfd sockfd' bytesize result ptr s).1
unfolding mem_alloc intercept accept
mem_alloc_answer sockfd sockfd' bytesize ptr success s h room unknown =
    rw (mem_alloc_room sockfd sockfd' bytesize ptr s h room) (
      refl,
      granted-IsInStep sockfd' bytesize ptr (asked sockfd s) (asked-IsInStep sockfd s h) room
          (unknown refl),
    )
mem_alloc_answer sockfd sockfd' bytesize ptr out_of_memory s h room unknown =
    rw (prehook_result sockfd bytesize s h, room) (refl, asked-IsInStep sockfd s h)
mem_alloc_answer sockfd sockfd' bytesize ptr (other n) s h room unknown =
    rw (prehook_result sockfd bytesize s h, room) (refl, asked-IsInStep sockfd s h)

-- `cuMemAlloc` of a process that is in step, where the driver gives no pointer that is in use: out of
-- memory if the size is beyond what is left, else what the driver answers; the process stays in step.
mem_alloc-IsInStep :
    (sockfd sockfd' bytesize ptr : ℕ) (result : CuResult) (s : Device)
    → IsInStep s
    → (result ≡ success → is_open ptr s.allocation_map ≡ false)
    → ((mem_alloc sockfd sockfd' bytesize result ptr s).0
        ≡ (if ltb (remaining s) bytesize then out_of_memory else result))
      × IsInStep (mem_alloc sockfd sockfd' bytesize result ptr s).1
mem_alloc-IsInStep sockfd sockfd' bytesize ptr result s h unknown =
    elim (Bool-cases (ltb (remaining s) bytesize)) [
      | inl over ↦
          rw (over, mem_alloc_denied sockfd sockfd' bytesize ptr result s h over)
            (refl, asked-IsInStep sockfd s h)
      | inr room ↦ rw room (mem_alloc_answer sockfd sockfd' bytesize ptr result s h room unknown)
    ]

-- The state after the free of a known pointer.
abbrev freed : ℕ → ℕ → Device → Device
freed sockfd ptr s =
    let bytes = held ptr s.allocation_map in
    record {
      allocation_map = erase ptr s.allocation_map;
      gpu_mem_used = sub64 s.gpu_mem_used bytes;
      pod_manager = change (λ v. sub64 v bytes) sockfd (accept sockfd s.pod_manager);
    }

freed-IsInStep : (sockfd ptr : ℕ) (s : Device) → IsInStep s → IsInStep (freed sockfd ptr s)
unfolding IsInStep accept
freed-IsInStep sockfd ptr s (sum, same, le, lim) =
    let m = s.allocation_map in
    (
      omega (arith, total-erase ptr m, held_le_total ptr m),
      omega arith,
      omega (arith, held_le_total ptr m),
      lim,
    )

prehook_freed :
    (sockfd ptr : ℕ) (s : Device)
    → is_open ptr s.allocation_map ≡ true
    → mem_free_prehook sockfd ptr s ≡ (success, freed sockfd ptr s)
unfolding mem_free_prehook update_memory_usage hook_update_memory_usage
prehook_freed sockfd ptr s known = rw known refl

prehook_unknown :
    (sockfd ptr : ℕ) (s : Device)
    → is_open ptr s.allocation_map ≡ false
    → mem_free_prehook sockfd ptr s ≡ (success, s)
unfolding mem_free_prehook
prehook_unknown sockfd ptr s unknown = rw unknown refl

driver_answer :
    (result : CuResult) (s t : Device)
    → IsInStep t
    → (pre : Device → CuResult × Device) → pre s ≡ (success, t)
    → IsInStep (intercept pre (λ u. (result, u)) (λ u. (success, u)) s).1
unfolding intercept
driver_answer success s t h pre e = rw e h
driver_answer out_of_memory s t h pre e = rw e h
driver_answer (other n) s t h pre e = rw e h

mem_free-IsInStep :
    (sockfd ptr : ℕ) (result : CuResult) (s : Device)
    → IsInStep s
    → IsInStep (mem_free sockfd ptr result s).1
unfolding mem_free
mem_free-IsInStep sockfd ptr result s h = elim (Bool-cases (is_open ptr s.allocation_map)) [
  | inl known ↦
      driver_answer result s (freed sockfd ptr s) (freed-IsInStep sockfd ptr s h)
        (mem_free_prehook sockfd ptr) (prehook_freed sockfd ptr s known)
  | inr unknown ↦
      driver_answer result s s h (mem_free_prehook sockfd ptr)
        (prehook_unknown sockfd ptr s unknown)
]

-- A process that starts with nothing, under a limit.
abbrev pub fresh : ℕ → Device
fresh limit = record {
  allocation_map = [];
  gpu_mem_used = 0;
  pod_manager = retrieve_mem_info 0 limit;
}

-- The states that its calls lead to, where the driver gives no pointer that is in use.
pub data Process (limit : ℕ) : Device → Type 0 where
  starts : Process limit (fresh limit)
  allocates :
      {s : Device}
      → Process limit s
      → (sockfd sockfd' bytesize ptr : ℕ) (result : CuResult)
      → (result ≡ success → is_open ptr s.allocation_map ≡ false)
      → Process limit (mem_alloc sockfd sockfd' bytesize result ptr s).1
  frees :
      {s : Device}
      → Process limit s
      → (sockfd ptr : ℕ) (result : CuResult) → Process limit (mem_free sockfd ptr result s).1

-- Whatever a process that has the Pod manager for itself allocates and frees, over whatever
-- connections, its count and that of the Pod manager are both what it holds, and within the limit.
pub Process-IsInStep : (limit : ℕ) (s : Device) → limit < 2 ^ 64 → Process limit s → IsInStep s
unfolding IsInStep total retrieve_mem_info
Process-IsInStep limit _ lim starts = (refl, refl, omega arith, lim)
Process-IsInStep limit _ lim (allocates {s} p sockfd sockfd' bytesize ptr result unknown) =
    (mem_alloc-IsInStep sockfd sockfd' bytesize ptr result s (Process-IsInStep limit s lim p)
      unknown).1
Process-IsInStep limit _ lim (frees {s} p sockfd ptr result) =
    mem_free-IsInStep sockfd ptr result s (Process-IsInStep limit s lim p)

-- After any allocations and frees of a process that has the Pod manager for itself, with a limit below
-- 2 ^ 64, `cuMemAlloc` is out of memory if the size is beyond what the limit leaves next to what the
-- process holds, and else answers what the driver answers. The driver gives no pointer that is in use.
pub mem_alloc_result :
    (limit : ℕ) (s : Device) (sockfd sockfd' bytesize ptr : ℕ) (result : CuResult)
    → limit < 2 ^ 64
    → Process limit s
    → (result ≡ success → is_open ptr s.allocation_map ≡ false)
    → (mem_alloc sockfd sockfd' bytesize result ptr s).0 ≡ (
        if ltb (s.pod_manager.gpu_mem_limit - total s.allocation_map) bytesize
        then out_of_memory
        else result)
unfolding IsInStep
mem_alloc_result limit s sockfd sockfd' bytesize ptr result lim p unknown =
    let h = Process-IsInStep limit s lim p in
    (mem_alloc-IsInStep sockfd sockfd' bytesize ptr result s h unknown).0
    ∙ ap (λ n. if ltb (s.pod_manager.gpu_mem_limit - n) bytesize then out_of_memory else result) h.0
