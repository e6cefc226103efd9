-- ===== src/Limits.antt =====
-- The limit of a client from the resource file to the processes that share its GPU memory: the scheduler
-- (src/scheduler.cpp) reads the file, the Pod manager (src/pod-manager.cpp) asks it for the limit, and the hooks of the
-- processes (src/hook.cpp) ask the Pod manager.
use mathlib.Core.Option.{some-injective, none-ne-some}
use gemini.Prelude.{
  ℕ, ◌^◌, ◌<◌, ◌≤◌, ◌≡◌, ap, sym, ◌∙◌, Option, some, List, [], ◌∷◌, All, length, map, Name,
  Bool-cases, inl, inr, name_eq, Option-cases,
}
use gemini.Prelude.Int.{ℤ}
use gemini.Prelude.Numerals.{Numeral, IsNumeral, number}
use gemini.Double.{Double}
use gemini.Comm.Buffer.{◌>>=◌}
use gemini.Comm.Messages.{req_mem_limit, Sender, Environment, name_of, req_msg_len}
use gemini.Comm.RoundTrip.{request_size}
use gemini.Scheduler.Defs.{client_info}
use gemini.Scheduler.Select.{Scheduler, find_client}
use gemini.Scheduler.Requests.{Line, read_resource_config}
use gemini.Scheduler.Config.{last_line, fresh, configured, find_client-read_resource_config}
use gemini.Scheduler.ResourceFile.{read_resource_text}
use gemini.Scheduler.ResourceText.{
  Entry, line_of, file_text, IsWritten, read_resource_text-file_text,
}
use gemini.PodManager.Memory.{Memory, retrieve_mem_info}
use gemini.PodManager.Startup.{startup, startup-retrieve_mem_info}
use gemini.Hook.Shared.{Local}
use gemini.Hook.Interleaved.{Shared, IsShared, Shared-IsShared}

module _ {D : Type 0} ⦃d : Double D⦄ (num_get : List ℕ → Option (D × List ℕ)) (of_bits : ℕ → D)
    (env : Environment) (sender : Sender) (socket : ℕ) (now arrived : D) where
  last_line-small :
      (n : Name) (es : List (Entry D)) (l : Line D)
      → All (IsWritten num_get) es
      → last_line n (map line_of es) ≡ some l
      → l.gpu_memory_size < 2 ^ 64
  unfolding last_line
  last_line-small n [] l h e = absurd (none-ne-some _ e)
  last_line-small n (x ∷ es) l (h, hs) e = elim (Option-cases (last_line n (map line_of es))) [
    | inr (k, later) ↦ last_line-small n es l hs (later ∙ (rw later at e))
    | inl no_later ↦ elim (Bool-cases (name_eq x.name n)) [
      | inl ours ↦
          let this : line_of x ≡ l = some-injective _ _ (rw (no_later, ours) at e) in
          rw (sym this) h.small
      | inr other ↦ absurd (none-ne-some _ (rw (no_later, other) at e))
    ]
  ]

  -- The scheduler starts with the text of its file, and then a Pod manager.
  unfoldable pub bring_up : ℤ → Line D → List ℕ → Scheduler D → Option (Scheduler D × Memory)
  bring_up container_num old text s = read_resource_text num_get container_num old text s >>= λ t.
      startup of_bits env sender socket now arrived t

  -- From a resource file as it is written the scheduler and then the Pod manager of a client come up with the limit
  -- that the client's last line in the file says; and however the hooks of any number of processes are
  -- interleaved, each counts what its allocation map holds, and all these counts together, which are the Pod
  -- manager's, never exceed it. No process ends meanwhile, and memory whose update the Pod manager denies after
  -- the driver has given it is in no count. The name of the client leaves
  -- room for the request and has no zero byte, the id fits 4 bytes; the driver gives no pointer that the process
  -- has in use, and no size wraps around next to the limit.
  pub bring_up-IsShared :
      (count : Numeral) (es : List (Entry D)) (l : Line D) (container_num : ℤ) (old : Line D)
      (s : Scheduler D) (ps : List Local) (m : Memory)
      → IsNumeral count
      → number count ≡ length es
      → number count < 2 ^ 31
      → All (IsWritten num_get) es
      → last_line (name_of env sender) (map line_of es) ≡ some l
      → request_size (name_of env sender) req_mem_limit ≤ req_msg_len
      → All (λ b. 0 < b) (name_of env sender)
      → sender.id < 256 ^ 4
      → Shared (retrieve_mem_info 0 l.gpu_memory_size) ps m
      → (bring_up container_num old (file_text count es) s
          ≡ some (read_resource_config s (map line_of es), retrieve_mem_info 0 l.gpu_memory_size))
        × IsShared l.gpu_memory_size ps m
  unfolding bring_up client_info
  bring_up-IsShared count es l container_num old s ps m numeral counted small h last room text hid
        run =
      let size : l.gpu_memory_size < 2 ^ 64 = last_line-small (name_of env sender) es l h last in
      (
        ap (λ o. o >>= λ t. startup of_bits env sender socket now arrived t)
              (read_resource_text-file_text num_get count es container_num old s numeral counted
                small h)
            ∙ startup-retrieve_mem_info of_bits env sender socket now arrived
                (read_resource_config s (map line_of es)) (fresh s l)
                ((find_client-read_resource_config (name_of env sender) (map line_of es) s).0
                  ∙ ap (configured s (find_client (name_of env sender) s.client_info_map)) last)
                room text hid size,
        Shared-IsShared size run,
      )
