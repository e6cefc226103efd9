-- ===== src/PodManager/Recovery.antt =====
-- What is left of a connection when it is closed.
use gemini.Prelude.{ℕ, ◌+◌, ◌%◌, ◌^◌, ◌<◌, ◌≡◌, some, List, [], ◌∷◌, ◌++◌}
use gemini.Comm.Buffer.{Buffer}
use gemini.Comm.Messages.{Environment}
use gemini.PodManager.Memory.{Memory}
use gemini.PodManager.Session.{Sent, messages, Answers, serve_all, answers_of, effects}

-- `m` with a connection that is accounted for `v` bytes, modulo 2 ^ 64.
abbrev holding : ℕ → ℕ → Memory → Memory
holding sockfd v m = record {
  gpu_mem_limit = m.gpu_mem_limit;
  gpu_mem_used = (m.gpu_mem_used + v) % 2 ^ 64;
  allocation_map = m.allocation_map ++ (sockfd, v) ∷ [];
}

module _ (launch : ℕ → ℕ → ℕ) (small : (overuse burst : ℕ) → launch overuse burst < 256 ^ 8)
    (env : Environment) where
  -- What the thread of a connection does with the bytes of the requests.
  record IsServed (sockfd : ℕ) (rs : List Sent) (m : Memory) : Type 0 where
    replies : List Buffer
    served :
        serve_all launch sockfd (messages env rs) m ≡ some (replies, effects launch sockfd rs m)
    received : Answers rs replies (answers_of launch sockfd rs m)
