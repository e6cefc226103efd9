-- ===== src/Hook/Shared.antt =====
-- A hook of one of several processes at one Pod manager.
use gemini.Prelude.{
  ℕ, ◌+◌, ◌^◌, ◌<◌, ◌≤◌, ◌≡◌, refl, true, false, if_cases, leb, ltb, arith, Bool-cases, inl, inr,
}
use gemini.PodManager.Memory.{
  Allocations, Memory, is_open, add64, sub64, held, erase, change, hook_update_memory_usage, accept,
}
use gemini.PodManager.Accounting.{total, total-modify, total-erase, held_le_total}
use gemini.Hook.Device.{
  CuResult, success, out_of_memory, Device, update_memory_usage, get_gpu_memory_info,
  mem_alloc_prehook, mem_alloc_posthook, mem_free_prehook,
}
use gemini.Hook.Accounts.{held-unknown, asked, granted}

-- The accounting of one process.
pub record Local : Type 0 where
  pub allocation_map : Allocations
  pub gpu_mem_used : ℕ

-- A process and the Pod manager that all share.
abbrev pub at_pod : Local → Memory → Device
at_pod p m = record {
  allocation_map = p.allocation_map;
  gpu_mem_used = p.gpu_mem_used;
  pod_manager = m;
}

abbrev pub local : Device → Local
local s = record { allocation_map = s.allocation_map; gpu_mem_used = s.gpu_mem_used }

-- A hook of one process.
pub data HookCall : Type 0 where
  alloc_pre : (sockfd bytesize : ℕ) → HookCall
  alloc_post : (sockfd ptr bytesize : ℕ) → HookCall
  free_pre : (sockfd ptr : ℕ) → HookCall

unfoldable pub run_hook : HookCall → Device → CuResult × Device
unfolding mem_alloc_prehook mem_alloc_posthook mem_free_prehook
run_hook (alloc_pre sockfd bytesize) s = mem_alloc_prehook sockfd bytesize s
run_hook (alloc_post sockfd ptr bytesize) s = mem_alloc_posthook sockfd ptr bytesize s
run_hook (free_pre sockfd ptr) s = mem_free_prehook sockfd ptr s

-- The driver gives no pointer that is in use, and sizes do not wrap around next to the limit.
unfoldable pub IsPlausible : HookCall → Device → Type 0
IsPlausible (alloc_pre sockfd bytesize) s = Unit
IsPlausible (alloc_post sockfd ptr bytesize) s =
    (is_open ptr s.allocation_map ≡ false) × (s.pod_manager.gpu_mem_limit + bytesize < 2 ^ 64)
IsPlausible (free_pre sockfd ptr) s = Unit

-- The process counts what it holds, and the Pod manager at least that, within the limit.
pub record IsPart (s : Device) : Type 0 where
  pub own : s.gpu_mem_used ≡ total s.allocation_map
  pub part : s.gpu_mem_used ≤ s.pod_manager.gpu_mem_used
  pub within : s.pod_manager.gpu_mem_used ≤ s.pod_manager.gpu_mem_limit
  pub limited : s.pod_manager.gpu_mem_limit < 2 ^ 64

-- The process and the Pod manager change their counts by the same amount.
pub record Moves (s t : Device) : Type 0 where
  pub still : IsPart t
  pub alike :
      t.pod_manager.gpu_mem_used + s.gpu_mem_used ≡ s.pod_manager.gpu_mem_used + t.gpu_mem_used
  pub limit : t.pod_manager.gpu_mem_limit ≡ s.pod_manager.gpu_mem_limit

asked-Moves : (sockfd : ℕ) (s : Device) → IsPart s → Moves s (asked sockfd s)
unfolding accept
asked-Moves sockfd s h = record {
  still = record { own = h.own; part = h.part; within = h.within; limited = h.limited };
  alike = refl;
  limit = refl;
}

granted-Moves :
    (sockfd ptr bytesize : ℕ) (s : Device)
    → IsPart s
    → is_open ptr s.allocation_map ≡ false
    → s.pod_manager.gpu_mem_limit + bytesize < 2 ^ 64
    → leb (add64 s.pod_manager.gpu_mem_used bytesize) s.pod_manager.gpu_mem_limit ≡ true
    → Moves s (granted sockfd bytesize ptr s)
unfolding accept
granted-Moves sockfd ptr bytesize s h unknown small fits = record {
  still = record {
    own = omega (
      arith,
      h.own,
      h.part,
      h.within,
      sum,
      total-modify (λ v. bytesize) ptr s.allocation_map,
      held-unknown ptr s.allocation_map unknown,
    );
    part = omega (arith, h.part, h.within, sum);
    within = omega (arith, h.within, sum);
    limited = h.limited;
  };
  alike = omega (arith, h.part, h.within, sum);
  limit = refl;
}
  where
    sum : s.pod_manager.gpu_mem_used + bytesize ≤ s.pod_manager.gpu_mem_limit
    sum = ground (arith, h.within)

freed-Moves :
    (sockfd ptr : ℕ) (s : Device)
    → IsPart s
    → Moves s (record {
      allocation_map = erase ptr s.allocation_map;
      gpu_mem_used = sub64 s.gpu_mem_used (held ptr s.allocation_map);
      pod_manager =
          change (λ v. sub64 v (held ptr s.allocation_map)) sockfd (accept sockfd s.pod_manager);
    })
unfolding accept
freed-Moves sockfd ptr s h =
    let m = s.allocation_map in
    record {
      still = record {
        own =
            omega
              (arith, h.own, h.part, h.within, h.limited, total-erase ptr m, held_le_total ptr m);
        part = omega (arith, h.own, h.part, h.within, h.limited, held_le_total ptr m);
        within = omega (arith, h.own, h.part, h.within, h.limited, held_le_total ptr m);
        limited = h.limited;
      };
      alike = omega (arith, h.own, h.part, h.within, h.limited, held_le_total ptr m);
      limit = refl;
    }

alloc_pre-Moves :
    (sockfd bytesize : ℕ) (s : Device) → IsPart s → Moves s (mem_alloc_prehook sockfd bytesize s).1
unfolding mem_alloc_prehook get_gpu_memory_info
alloc_pre-Moves sockfd bytesize s h =
    let (info, t) = get_gpu_memory_info sockfd s in
    if_cases (λ (r : CuResult × Device). Moves s r.1) (ltb info.0 bytesize) (out_of_memory, t)
      (success, t) (λ _. asked-Moves sockfd s h) (λ _. asked-Moves sockfd s h)

alloc_post-Moves :
    (sockfd ptr bytesize : ℕ) (s : Device)
    → IsPart s
    → IsPlausible (alloc_post sockfd ptr bytesize) s
    → Moves s (mem_alloc_posthook sockfd ptr bytesize s).1
unfolding mem_alloc_posthook update_memory_usage hook_update_memory_usage accept IsPlausible
alloc_post-Moves sockfd ptr bytesize s h (unknown, small) =
    elim (Bool-cases
      (leb (add64 s.pod_manager.gpu_mem_used bytesize) s.pod_manager.gpu_mem_limit)) [
        | inl fits ↦ rw fits (granted-Moves sockfd ptr bytesize s h unknown small fits)
        | inr over ↦ rw over (asked-Moves sockfd s h)
      ]

free_pre-Moves :
    (sockfd ptr : ℕ) (s : Device) → IsPart s → Moves s (mem_free_prehook sockfd ptr s).1
unfolding mem_free_prehook update_memory_usage hook_update_memory_usage
free_pre-Moves sockfd ptr s h = elim (Bool-cases (is_open ptr s.allocation_map)) [
  | inl known ↦ rw known (freed-Moves sockfd ptr s h)
  | inr unknown ↦ rw unknown (record { still = h; alike = refl; limit = refl })
]

pub run_hook-Moves :
    (c : HookCall) (s : Device) → IsPart s → IsPlausible c s → Moves s (run_hook c s).1
unfolding run_hook
run_hook-Moves (alloc_pre sockfd bytesize) s h ok = alloc_pre-Moves sockfd bytesize s h
run_hook-Moves (alloc_post sockfd ptr bytesize) s h ok = alloc_post-Moves sockfd ptr bytesize s h ok
run_hook-Moves (free_pre sockfd ptr) s h ok = free_pre-Moves sockfd ptr s h
