-- ===== src/Hook/Interleaved.antt =====
-- Several processes at one Pod manager: their hooks come in any order, also between the prehook and the
-- posthook of an allocation.
use gemini.Prelude.{
  ℕ, ◌+◌, ◌^◌, ◌<◌, ◌≤◌, ◌≡◌, refl, ◌∙◌, List, [], ◌∷◌, ◌++◌, arith, All, All-middle,
}
use gemini.PodManager.Memory.{Memory, retrieve_mem_info}
use gemini.PodManager.Accounting.{total}
use gemini.Hook.Shared.{Local, local, at_pod, HookCall, run_hook, IsPlausible, run_hook-Moves}

-- What processes count, together.
abbrev pub used_by : List Local → ℕ
used_by [] = 0
used_by (p ∷ ps) = p.gpu_mem_used + used_by ps

used_by-append : (ps qs : List Local) → used_by (ps ++ qs) ≡ used_by ps + used_by qs
used_by-append [] qs = omega arith
used_by-append (p ∷ ps) qs = omega (arith, used_by-append ps qs)

-- No process ends here, and what the driver has given when the Pod manager denies the update is in no count.
-- The processes and a Pod manager that starts with `pod`, after any hooks of any of them; a process may come at any time.
pub data Shared (pod : Memory) : List Local → Memory → Type 0 where
  starts : Shared pod [] pod
  joins :
      {ps : List Local} {m : Memory}
      → Shared pod ps m
      → Shared pod (record { allocation_map = []; gpu_mem_used = 0 } ∷ ps) m
  calls :
      {m : Memory} (ps : List Local) (p : Local) (qs : List Local)
      → Shared pod (ps ++ p ∷ qs) m
      → (c : HookCall) → IsPlausible c (at_pod p m)
      → Shared pod
          (ps ++ local (run_hook c (at_pod p m)).1 ∷ qs)
          (run_hook c (at_pod p m)).1.pod_manager

-- Each process counts what it holds, the Pod manager counts what all hold, within the limit.
pub record IsShared (limit : ℕ) (ps : List Local) (m : Memory) : Type 0 where
  pub own : All (λ p. p.gpu_mem_used ≡ total p.allocation_map) ps
  pub all : m.gpu_mem_used ≡ used_by ps
  pub within : m.gpu_mem_used ≤ limit
  pub limit_eq : m.gpu_mem_limit ≡ limit

call-IsShared :
    (limit : ℕ) (m : Memory) (ps : List Local) (p : Local) (qs : List Local) (c : HookCall)
    → limit < 2 ^ 64
    → IsShared limit (ps ++ p ∷ qs) m
    → IsPlausible c (at_pod p m)
    → let t = (run_hook c (at_pod p m)).1 in IsShared limit (ps ++ local t ∷ qs) t.pod_manager
call-IsShared limit m ps p qs c lim h ok =
    let t = (run_hook c (at_pod p m)).1 in
    let (ours, others) =
      All-middle (λ (q : Local). q.gpu_mem_used ≡ total q.allocation_map) ps qs p h.own in
    let before = used_by-append ps (p ∷ qs) in
    let after = used_by-append ps (local t ∷ qs) in
    let move =
      run_hook-Moves c (at_pod p m)
        (record {
          own = ours;
          part = omega (arith, h.all, before);
          within = omega (arith, h.within, h.limit_eq);
          limited = omega (arith, lim, h.limit_eq);
        })
        ok in
    record {
      own = insert_own (local t) ps others move.still.own;
      all = omega (arith, h.all, before, after, move.alike);
      within = omega (arith, move.still.within, move.limit, h.limit_eq);
      limit_eq = move.limit ∙ h.limit_eq;
    }
  where
    IsOwn : Local → Type 0
    IsOwn q = q.gpu_mem_used ≡ total q.allocation_map

    insert_own :
        (q : Local) (rs : List Local) → All IsOwn (rs ++ qs) → IsOwn q → All IsOwn (rs ++ q ∷ qs)
    insert_own q [] k e = (e, k)
    insert_own q (r ∷ rs) (e', k) e = (e', insert_own q rs k e)

-- However the hooks of any number of processes are interleaved, every process counts what it holds, and the
-- Pod manager counts what all of them hold together, which never exceeds the limit. The driver gives no
-- pointer that the process has in use, and no size wraps around next to the limit.
pub Shared-IsShared :
    {limit : ℕ} {ps : List Local} {m : Memory}
    → limit < 2 ^ 64
    → Shared (retrieve_mem_info 0 limit) ps m
    → IsShared limit ps m
unfolding retrieve_mem_info total
Shared-IsShared lim starts = record { own = tt; all = refl; within = omega arith; limit_eq = refl }
Shared-IsShared {limit = limit} lim (joins {ps = ps} {m = m} run) =
    let h = Shared-IsShared lim run in
    record {
      own = (refl, h.own);
      all = omega (arith, h.all);
      within = h.within;
      limit_eq = h.limit_eq;
    }
Shared-IsShared {limit = limit} lim (calls {m = m} ps p qs run c ok) =
    call-IsShared limit m ps p qs c lim (Shared-IsShared lim run) ok
