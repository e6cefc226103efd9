-- ===== src/PodManager/Updates.antt =====
-- What a request of a connection does to the memory accounting.
use gemini.Prelude.{
  ℕ, suc, ◌+◌, ◌^◌, ◌<◌, ◌≤◌, ◌≡◌, refl, ap, ◌∙◌, true, [], ◌∷◌, if◌then◌else◌, leb, ◌==◌, arith,
  Bool-cases, inl, inr,
}
use gemini.PodManager.Memory.{
  is_open, Allocations, Memory, add64, sub64, held, modify, change, hook_update_memory_usage,
  updated, step, retrieve_mem_info,
}
use gemini.PodManager.Accounting.{
  total, held_le_total, Allowed, Run, IsAccounted, Run-IsAccounted, Run-limit,
}

modify_ext :
    (f g : ℕ → ℕ) (sockfd : ℕ) (m : Allocations)
    → f (held sockfd m) ≡ g (held sockfd m)
    → modify f sockfd m ≡ modify g sockfd m
unfolding modify held
modify_ext f g sockfd [] e = rw e refl
modify_ext f g sockfd ((k, v) ∷ m) e = elim (Bool-cases (k == sockfd)) [
  | inl here ↦ let e' : f v ≡ g v = rw here at e in rw (here, e') refl
  | inr there ↦
      let e' : f (held sockfd m) ≡ g (held sockfd m) = rw there at e in
      rw there (ap (λ r. (k, v) ∷ r) (modify_ext f g sockfd m e'))
]

-- Two changes that agree on the memory in use and on what the connection holds.
change_ext :
    (f g : ℕ → ℕ) (sockfd : ℕ) (s : Memory)
    → f s.gpu_mem_used ≡ g s.gpu_mem_used
    → f (held sockfd s.allocation_map) ≡ g (held sockfd s.allocation_map)
    → change f sockfd s ≡ change g sockfd s
change_ext f g sockfd s used entry = rw (used, modify_ext f g sockfd s.allocation_map entry) refl

eqb_refl : (n : ℕ) → (n == n) ≡ true
eqb_refl n = ground arith

modify-modify :
    (f g : ℕ → ℕ) (sockfd : ℕ) (m : Allocations)
    → modify g sockfd (modify f sockfd m) ≡ modify (λ v. g (f v)) sockfd m
unfolding modify
modify-modify f g sockfd [] = rw (eqb_refl sockfd) refl
modify-modify f g sockfd ((k, v) ∷ m) = elim (Bool-cases (k == sockfd)) [
  | inl here ↦ rw (here, here) refl
  | inr there ↦ rw (there, there) (ap (λ r. (k, v) ∷ r) (modify-modify f g sockfd m))
]

-- The test does not wrap around.
unwrapped_test :
    (used sum limit limit' mem_size : ℕ)
    → used ≡ sum
    → limit' ≡ limit
    → used ≤ limit'
    → limit + mem_size < 2 ^ 64
    → leb (add64 used mem_size) limit' ≡ leb (sum + mem_size) limit
unwrapped_test used sum limit limit' mem_size e e' le small = ground arith

-- After any history from the scheduler's answer on in which connections free at most what they hold,
-- and ask for sizes that with the limit are below 2 ^ 64, an allocation of such a size is granted
-- exactly when what all connections hold and the size are together within the limit: then the size is
-- added to `gpu_mem_used` and to what the connection holds, else nothing changes.
pub update_verdict :
    (limit : ℕ) (s : Memory) (mem_size allocate sockfd : ℕ)
    → limit + mem_size < 2 ^ 64
    → Run Allowed (retrieve_mem_info 0 limit) s
    → hook_update_memory_usage mem_size (suc allocate) sockfd s ≡ (
        if leb (total s.allocation_map + mem_size) limit
        then (1, change (λ v. v + mem_size) sockfd s)
        else (0, s))
unfolding hook_update_memory_usage IsAccounted retrieve_mem_info
update_verdict limit s mem_size allocate sockfd small run =
    rw test (elim (Bool-cases (leb (total m + mem_size) limit)) [
      | inl fits ↦ rw fits (
          ap (λ t. (1, t))
            (change_ext (λ v. add64 v mem_size) (λ v. v + mem_size) sockfd s (omega (arith, within))
              (omega (arith, held_le_total sockfd m, within, used))))
      | inr over ↦ rw over refl
    ])
  where
    m : Allocations
    m = s.allocation_map

    acc : IsAccounted s
    acc = Run-IsAccounted limit s (omega arith) run

    same_limit : s.gpu_mem_limit ≡ limit
    same_limit = Run-limit Allowed (retrieve_mem_info 0 limit) s run

    used : s.gpu_mem_used ≡ total m
    used = acc.0

    within : s.gpu_mem_used ≤ limit
    within = rw same_limit at acc.1

    test : leb (add64 s.gpu_mem_used mem_size) s.gpu_mem_limit ≡ leb (total m + mem_size) limit
    test =
        unwrapped_test s.gpu_mem_used (total m) limit s.gpu_mem_limit mem_size used same_limit acc.1
          small

modify_id :
    (f : ℕ → ℕ) (sockfd : ℕ) (m : Allocations)
    → is_open sockfd m ≡ true
    → f (held sockfd m) ≡ held sockfd m
    → modify f sockfd m ≡ m
unfolding is_open modify held
modify_id f sockfd [] has e = ground arith
modify_id f sockfd ((k, v) ∷ m) has e = elim (Bool-cases (k == sockfd)) [
  | inl here ↦ let e' : f v ≡ v = rw here at e in rw (here, e') refl
  | inr there ↦
      let e' : f (held sockfd m) ≡ held sockfd m = rw there at e in
      let has' : is_open sockfd m ≡ true = rw there at has in
      rw there (ap (λ r. (k, v) ∷ r) (modify_id f sockfd m has' e'))
]

change-change :
    (f g : ℕ → ℕ) (sockfd : ℕ) (s : Memory)
    → change g sockfd (change f sockfd s) ≡ change (λ v. g (f v)) sockfd s
change-change f g sockfd s = rw (modify-modify f g sockfd s.allocation_map) refl

granted_state :
    (mem_size allocate sockfd : ℕ) (s : Memory)
    → (hook_update_memory_usage mem_size (suc allocate) sockfd s).0 ≡ 1
    → (hook_update_memory_usage mem_size (suc allocate) sockfd s).1
      ≡ change (λ v. add64 v mem_size) sockfd s
unfolding hook_update_memory_usage
granted_state mem_size allocate sockfd s granted =
    elim (Bool-cases (leb (add64 s.gpu_mem_used mem_size) s.gpu_mem_limit)) [
      | inl fits ↦ rw fits refl
      | inr over ↦ absurd (let no : 0 ≡ 1 = rw over at granted in omega arith)
    ]

-- An open connection that frees the bytes it was just granted leaves the accounting as it was, also
-- where sizes wrap around.
pub allocate_free :
    (mem_size allocate sockfd : ℕ) (s : Memory)
    → is_open sockfd s.allocation_map ≡ true
    → mem_size < 2 ^ 64
    → s.gpu_mem_used < 2 ^ 64
    → held sockfd s.allocation_map < 2 ^ 64
    → (hook_update_memory_usage mem_size (suc allocate) sockfd s).0 ≡ 1
    → step (updated mem_size 0 sockfd) (step (updated mem_size (suc allocate) sockfd) s) ≡ s
unfolding step hook_update_memory_usage
allocate_free mem_size allocate sockfd s has small used entry granted =
    ap (λ t. step (updated mem_size 0 sockfd) t) (granted_state mem_size allocate sockfd s granted)
    ∙ (change-change (λ v. add64 v mem_size) (λ v. sub64 v mem_size) sockfd s
        ∙ rw (same_used, same_map) refl)
  where
    same_used : sub64 (add64 s.gpu_mem_used mem_size) mem_size ≡ s.gpu_mem_used
    same_used = omega arith

    same_map :
        modify (λ v. sub64 (add64 v mem_size) mem_size) sockfd s.allocation_map ≡ s.allocation_map
    same_map =
        modify_id (λ v. sub64 (add64 v mem_size) mem_size) sockfd s.allocation_map has (omega arith)
