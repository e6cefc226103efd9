-- ===== src/PodManager/Accounting.antt =====
-- What `gpu_mem_used` and `allocation_map` have to do with each other.
use gemini.Prelude.{
  ℕ, zero, suc, ◌+◌, ◌^◌, ◌<◌, ◌≤◌, ◌≡◌, refl, ◌∙◌, [], ◌∷◌, leb, arith, Bool-cases, inl, inr,
}
use gemini.PodManager.Memory.{
  Allocations, Memory, add64, sub64, held, modify, insert, erase, change, hook_update_memory_usage,
  accept, close, Event, accepted, updated, closed, step, retrieve_mem_info,
}

-- What all connections hold.
unfoldable pub total : Allocations → ℕ
total [] = 0
total ((k, v) ∷ m) = v + total m

pub total-insert : (sockfd : ℕ) (m : Allocations) → total (insert sockfd m) ≡ total m
unfolding total insert
total-insert sockfd [] = omega arith
total-insert sockfd ((k, v) ∷ m) = ground (arith, total-insert sockfd m)

pub total-erase : (sockfd : ℕ) (m : Allocations) → total (erase sockfd m) + held sockfd m ≡ total m
unfolding total erase held
total-erase sockfd [] = omega arith
total-erase sockfd ((k, v) ∷ m) = ground (arith, total-erase sockfd m)

pub total-modify :
    (f : ℕ → ℕ) (sockfd : ℕ) (m : Allocations)
    → total (modify f sockfd m) + held sockfd m ≡ total m + f (held sockfd m)
unfolding total modify held
total-modify f sockfd [] = omega arith
total-modify f sockfd ((k, v) ∷ m) = ground (arith, total-modify f sockfd m)

pub held_le_total : (sockfd : ℕ) (m : Allocations) → held sockfd m ≤ total m
held_le_total sockfd m = omega (arith, total-erase sockfd m)

-- What clients do: they free what they hold, and ask for sizes that with the limit are below 2 ^ 64.
unfoldable pub Allowed : Event → Memory → Type 0
Allowed (accepted sockfd) s = Unit
Allowed (updated mem_size zero sockfd) s = mem_size ≤ held sockfd s.allocation_map
Allowed (updated mem_size (suc _) sockfd) s = s.gpu_mem_limit + mem_size < 2 ^ 64
Allowed (closed sockfd) s = Unit

-- The states that a state leads to by events that meet a condition.
pub data Run (P : Event → Memory → Type 0) (s : Memory) : Memory → Type 0 where
  start : Run P s s
  next : {t : Memory} → Run P s t → (e : Event) → P e t → Run P s (step e t)

-- The memory in use is what the connections hold, and no more than the limit.
unfoldable pub IsAccounted : Memory → Type 0
IsAccounted s =
    (s.gpu_mem_used ≡ total s.allocation_map)
    × (s.gpu_mem_used ≤ s.gpu_mem_limit)
    × (s.gpu_mem_limit < 2 ^ 64)

accept-IsAccounted : (sockfd : ℕ) (s : Memory) → IsAccounted s → IsAccounted (accept sockfd s)
unfolding IsAccounted accept
accept-IsAccounted sockfd s (sum, le, lim) =
    (omega (arith, total-insert sockfd s.allocation_map), le, lim)

close-IsAccounted : (sockfd : ℕ) (s : Memory) → IsAccounted s → IsAccounted (close sockfd s)
unfolding IsAccounted close
close-IsAccounted sockfd s (sum, le, lim) = (
  omega (arith, total-erase sockfd s.allocation_map),
  omega (arith, total-erase sockfd s.allocation_map),
  lim,
)

free-IsAccounted :
    (mem_size sockfd : ℕ) (s : Memory)
    → mem_size ≤ held sockfd s.allocation_map
    → IsAccounted s
    → IsAccounted (change (λ v. sub64 v mem_size) sockfd s)
unfolding IsAccounted
free-IsAccounted mem_size sockfd s h (sum, le, lim) =
    let m = s.allocation_map in
    (
      omega (arith, total-modify (λ v. sub64 v mem_size) sockfd m, held_le_total sockfd m),
      omega (arith, held_le_total sockfd m),
      lim,
    )

alloc-IsAccounted :
    (mem_size sockfd : ℕ) (s : Memory)
    → s.gpu_mem_limit + mem_size < 2 ^ 64
    → add64 s.gpu_mem_used mem_size ≤ s.gpu_mem_limit
    → IsAccounted s
    → IsAccounted (change (λ v. add64 v mem_size) sockfd s)
unfolding IsAccounted
alloc-IsAccounted mem_size sockfd s h fits (sum, le, lim) =
    let m = s.allocation_map in
    (
      omega (arith, total-modify (λ v. add64 v mem_size) sockfd m, held_le_total sockfd m),
      fits,
      lim,
    )

update-IsAccounted :
    (mem_size allocate sockfd : ℕ) (s : Memory)
    → Allowed (updated mem_size allocate sockfd) s
    → IsAccounted s
    → IsAccounted ((hook_update_memory_usage mem_size allocate sockfd s).1)
unfolding hook_update_memory_usage Allowed
update-IsAccounted mem_size zero sockfd s h acc = free-IsAccounted mem_size sockfd s h acc
update-IsAccounted mem_size (suc a) sockfd s h acc =
    elim (Bool-cases (leb (add64 s.gpu_mem_used mem_size) s.gpu_mem_limit)) [
      | inl fits ↦ rw fits (alloc-IsAccounted mem_size sockfd s h (ground arith) acc)
      | inr over ↦ rw over acc
    ]

step-IsAccounted : (e : Event) (s : Memory) → Allowed e s → IsAccounted s → IsAccounted (step e s)
unfolding step
step-IsAccounted (accepted sockfd) s h acc = accept-IsAccounted sockfd s acc
step-IsAccounted (updated mem_size allocate sockfd) s h acc =
    update-IsAccounted mem_size allocate sockfd s h acc
step-IsAccounted (closed sockfd) s h acc = close-IsAccounted sockfd s acc

-- From the scheduler's answer on (nothing used, a limit below 2 ^ 64), whatever connections come, go,
-- free what they hold and ask for (sizes that with the limit are below 2 ^ 64), `gpu_mem_used` is the
-- sum of what the open connections hold, and at most the limit.
pub Run-IsAccounted :
    (limit : ℕ) (s : Memory)
    → limit < 2 ^ 64
    → Run Allowed (retrieve_mem_info 0 limit) s
    → IsAccounted s
unfolding retrieve_mem_info IsAccounted total
Run-IsAccounted limit _ lim start = (refl, omega arith, lim)
Run-IsAccounted limit _ lim (next {t} run e allowed) =
    step-IsAccounted e t allowed (Run-IsAccounted limit t lim run)

update_limit :
    (mem_size allocate sockfd : ℕ) (s : Memory)
    → ((hook_update_memory_usage mem_size allocate sockfd s).1).gpu_mem_limit ≡ s.gpu_mem_limit
unfolding hook_update_memory_usage
update_limit mem_size zero sockfd s = refl
update_limit mem_size (suc allocate) sockfd s =
    elim (Bool-cases (leb (add64 s.gpu_mem_used mem_size) s.gpu_mem_limit)) [
      | inl fits ↦ rw fits refl
      | inr over ↦ rw over refl
    ]

step_limit : (e : Event) (s : Memory) → (step e s).gpu_mem_limit ≡ s.gpu_mem_limit
unfolding step accept close
step_limit (accepted sockfd) s = refl
step_limit (updated mem_size allocate sockfd) s = update_limit mem_size allocate sockfd s
step_limit (closed sockfd) s = refl

-- The limit stays.
pub Run-limit :
    (P : Event → Memory → Type 0) (s t : Memory) → Run P s t → t.gpu_mem_limit ≡ s.gpu_mem_limit
Run-limit P s _ start = refl
Run-limit P s _ (next {t} run e allowed) = step_limit e t ∙ Run-limit P s t run
