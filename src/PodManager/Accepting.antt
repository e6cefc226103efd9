-- ===== src/PodManager/Accepting.antt =====
-- The loop of `main` in src/pod-manager.cpp that accepts the connections of hook libraries. The entries of
-- their bursts are `Quota`'s.
use gemini.Prelude.{
  ℕ, zero, suc, ◌≡◌, refl, Bool, true, false, Option, none, some, List, [], ◌∷◌, arith, All,
}
use gemini.PodManager.Memory.{Allocations, Memory, is_open, insert, accept}

pub record Accepted : Type 0 where
  pub memory : Memory
  -- the descriptors for which a thread is created
  pub threads : List ℕ
  pub returned : Bool

-- What `accept` gives, `none` for -1; descriptor 0 ends the loop as well.
unfoldable pub accept_all : List (Option ℕ) → Memory → Accepted
unfolding accept
accept_all [] m = record { memory = m; threads = []; returned = false }
accept_all (none ∷ rs) m = record { memory = m; threads = []; returned = true }
accept_all (some zero ∷ rs) m = record { memory = m; threads = []; returned = true }
accept_all (some (suc fd) ∷ rs) m =
    let rest = accept_all rs (accept (suc fd) m) in record rest { threads = suc fd ∷ rest.threads }

is_open-insert : (k : ℕ) (m : Allocations) → is_open k (insert k m) ≡ true
unfolding is_open insert
is_open-insert k [] = ground arith
is_open-insert k ((j, v) ∷ m) = ground (arith, is_open-insert k m)

insert-keeps : (k j : ℕ) (m : Allocations) → is_open k m ≡ true → is_open k (insert j m) ≡ true
unfolding is_open insert
insert-keeps k j [] h = ground arith
insert-keeps k j ((i, v) ∷ m) h = ground (arith, insert-keeps k j m)

accept_all-keeps :
    (k : ℕ) (rs : List (Option ℕ)) (m : Memory)
    → is_open k m.allocation_map ≡ true
    → is_open k (accept_all rs m).memory.allocation_map ≡ true
unfolding accept_all accept
accept_all-keeps k [] m h = h
accept_all-keeps k (none ∷ rs) m h = h
accept_all-keeps k (some zero ∷ rs) m h = h
accept_all-keeps k (some (suc fd) ∷ rs) m h =
    accept_all-keeps k rs (accept (suc fd) m) (insert-keeps k (suc fd) m.allocation_map h)

-- While no connection ends, each thread that the loop creates finds an entry of its connection in the accounting,
-- and the memory in use and the limit are as before.
pub accept_all-is_open :
    (rs : List (Option ℕ)) (m : Memory)
    → let r = accept_all rs m in
      All (λ fd. is_open fd r.memory.allocation_map ≡ true) r.threads
      × (r.memory.gpu_mem_used ≡ m.gpu_mem_used)
      × (r.memory.gpu_mem_limit ≡ m.gpu_mem_limit)
unfolding accept_all accept
accept_all-is_open [] m = (tt, refl, refl)
accept_all-is_open (none ∷ rs) m = (tt, refl, refl)
accept_all-is_open (some zero ∷ rs) m = (tt, refl, refl)
accept_all-is_open (some (suc fd) ∷ rs) m =
    let (opened, used, limit) = accept_all-is_open rs (accept (suc fd) m) in
    (
      (
        accept_all-keeps (suc fd) rs (accept (suc fd) m) (is_open-insert (suc fd) m.allocation_map),
        opened,
      ),
      used,
      limit,
    )
