-- ===== src/PodManager/Balance.antt =====
-- The accounting where sizes wrap around: a free may come over another connection than the
-- allocation, and the entry of a connection that only frees is a difference modulo 2 ^ 64.
use gemini.Prelude.{
  ℕ, zero, suc, ◌-◌, ◌%◌, ◌^◌, ◌<◌, ◌≡◌, [], ◌∷◌, arith, All, Bool-cases, inl, inr, leb, ◌==◌,
}
use gemini.PodManager.Memory.{
  Allocations, Memory, add64, held, modify, insert, erase, change, hook_update_memory_usage, accept,
  close, Event, accepted, updated, closed, step, retrieve_mem_info,
}
use gemini.PodManager.Accounting.{total, total-insert, total-erase, total-modify, Run, start, next}

-- Sizes are values of `size_t`.
unfoldable pub IsTyped : Event → Memory → Type 0
IsTyped (accepted sockfd) s = Unit
IsTyped (updated mem_size allocate sockfd) s = mem_size < 2 ^ 64
IsTyped (closed sockfd) s = Unit

abbrev Words : Allocations → Type 0
Words m = All (λ e. e.1 < 2 ^ 64) m

held-Words : (sockfd : ℕ) (m : Allocations) → Words m → held sockfd m < 2 ^ 64
unfolding held
held-Words sockfd [] h = omega arith
held-Words sockfd ((k, v) ∷ m) (w, h) = elim (Bool-cases (k == sockfd)) [
  | inl here ↦ rw here w
  | inr there ↦ rw there (held-Words sockfd m h)
]

insert-Words : (sockfd : ℕ) (m : Allocations) → Words m → Words (insert sockfd m)
unfolding insert
insert-Words sockfd [] h = (omega arith, tt)
insert-Words sockfd ((k, v) ∷ m) (w, h) = elim (Bool-cases (k == sockfd)) [
  | inl here ↦ rw here (w, h)
  | inr there ↦ rw there (w, insert-Words sockfd m h)
]

erase-Words : (sockfd : ℕ) (m : Allocations) → Words m → Words (erase sockfd m)
unfolding erase
erase-Words sockfd [] h = tt
erase-Words sockfd ((k, v) ∷ m) (w, h) = elim (Bool-cases (k == sockfd)) [
  | inl here ↦ rw here h
  | inr there ↦ rw there (w, erase-Words sockfd m h)
]

modify-Words :
    (f : ℕ → ℕ) (sockfd : ℕ) (m : Allocations)
    → ((v : ℕ) → f v < 2 ^ 64)
    → Words m
    → Words (modify f sockfd m)
unfolding modify
modify-Words f sockfd [] word h = (word 0, tt)
modify-Words f sockfd ((k, v) ∷ m) word (w, h) = elim (Bool-cases (k == sockfd)) [
  | inl here ↦ rw here (word v, h)
  | inr there ↦ rw there (w, modify-Words f sockfd m word h)
]

-- The memory in use is the sum of the entries, modulo 2 ^ 64.
unfoldable pub IsBalanced : Memory → Type 0
IsBalanced s = (s.gpu_mem_used ≡ total s.allocation_map % 2 ^ 64) × Words s.allocation_map

-- Both counts change by the same difference.
change-IsBalanced :
    (d sockfd : ℕ) (s : Memory) → IsBalanced s → IsBalanced (change (λ v. add64 v d) sockfd s)
unfolding IsBalanced
change-IsBalanced d sockfd s (sum, words) = (
  omega (arith, total-modify (λ v. add64 v d) sockfd s.allocation_map),
  modify-Words (λ v. add64 v d) sockfd s.allocation_map (λ v. omega arith) words,
)

close-IsBalanced : (sockfd : ℕ) (s : Memory) → IsBalanced s → IsBalanced (close sockfd s)
unfolding IsBalanced close
close-IsBalanced sockfd s (sum, words) =
    let m = s.allocation_map in
    (omega (arith, total-erase sockfd m, held-Words sockfd m words), erase-Words sockfd m words)

update-IsBalanced :
    (mem_size allocate sockfd : ℕ) (s : Memory)
    → IsBalanced s
    → IsBalanced ((hook_update_memory_usage mem_size allocate sockfd s).1)
unfolding hook_update_memory_usage
update-IsBalanced mem_size zero sockfd s bal = change-IsBalanced (2 ^ 64 - mem_size) sockfd s bal
update-IsBalanced mem_size (suc a) sockfd s bal =
    elim (Bool-cases (leb (add64 s.gpu_mem_used mem_size) s.gpu_mem_limit)) [
      | inl fits ↦ rw fits (change-IsBalanced mem_size sockfd s bal)
      | inr over ↦ rw over bal
    ]

accept-IsBalanced : (sockfd : ℕ) (s : Memory) → IsBalanced s → IsBalanced (accept sockfd s)
unfolding IsBalanced accept
accept-IsBalanced sockfd s (sum, words) = (
  omega (arith, total-insert sockfd s.allocation_map),
  insert-Words sockfd s.allocation_map words,
)

step-IsBalanced : (e : Event) (s : Memory) → IsBalanced s → IsBalanced (step e s)
unfolding step
step-IsBalanced (accepted sockfd) s bal = accept-IsBalanced sockfd s bal
step-IsBalanced (updated mem_size allocate sockfd) s bal =
    update-IsBalanced mem_size allocate sockfd s bal
step-IsBalanced (closed sockfd) s bal = close-IsBalanced sockfd s bal

-- Over any history, whoever frees what over which connection, `gpu_mem_used` is the sum of the entries
-- of the open connections modulo 2 ^ 64, and each entry is below 2 ^ 64.
pub Run-IsBalanced :
    (limit : ℕ) (s : Memory) → Run IsTyped (retrieve_mem_info 0 limit) s → IsBalanced s
unfolding retrieve_mem_info IsBalanced total
Run-IsBalanced limit _ start = (omega arith, tt)
Run-IsBalanced limit _ (next {t} run e typed) = step-IsBalanced e t (Run-IsBalanced limit t run)
