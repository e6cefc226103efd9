-- ===== src/Tests/Wires.antt =====
-- A process "a" at a Pod manager with a limit of 1000 bytes: an allocation of 600 over the wire, and one whose
-- first two responses are lost.
use gemini.Prelude.{ℕ, zero, suc, ◌<◌, ◌+◌, ◌*◌, ◌≡◌, refl, arith, none, some, [], ◌∷◌}
use gemini.Prelude.Int.{ℤ, pos}
use gemini.Comm.Messages.{req_mem_update, rsp_mem_update, Sender, Environment, name_of}
use gemini.Comm.Receive.{Fits}
use gemini.PodManager.Memory.{Memory, modify, hook_update_memory_usage}
use gemini.PodManager.Wire.{exchange, respond, exchange-respond}
use gemini.Hook.Wire.{request, replied, request-respond}
use gemini.Hook.Communicate.{
  repeated, Outcome, unanswered, answered, communicate, update, communicate-update,
}

abbrev pub env : Environment
env = record { pod_name = some (97 ∷ []); host_name = 98 ∷ [] }

abbrev pub sender : Sender
sender = record { client_name = none; id = 7 }

abbrev pub pod : Memory
pod = record { gpu_mem_limit = 1000; gpu_mem_used = 0; allocation_map = (3, 0) ∷ [] }

abbrev pub launch : ℕ → ℕ → ℕ
launch overuse burst = 250

exchange_answers :
    exchange launch env sender (req_mem_update 600 1) 3 pod
    ≡ some (
      7,
      (respond launch (req_mem_update 600 1) 3 pod).0,
      (respond launch (req_mem_update 600 1) 3 pod).1,
    )
unfolding name_of Fits
exchange_answers =
    exchange-respond launch env sender (req_mem_update 600 1) 3 pod (omega arith) (omega arith)
      (omega arith) (λ overuse burst. omega arith) (omega arith) (omega arith)

-- The responses to two attempts are lost.
abbrev pub outcomes : ℕ → Outcome
outcomes zero = unanswered (pos 11)
outcomes (suc zero) = unanswered (pos 11)
outcomes _ = answered

lost : (i : ℕ) → i < 2 → (errno : ℤ) × (outcomes i ≡ unanswered errno)
lost zero h = (pos 11, refl)
lost (suc zero) h = (pos 11, refl)
lost (suc (suc i)) h = absurd (omega arith)

communicate-update_example :
    let r = communicate (update 300 1 3) outcomes pod in
    (r.0 ≡ some (pos 0)) × (r.1.gpu_mem_used ≡ pod.gpu_mem_used + 3 * 300)
communicate-update_example =
    communicate-update outcomes 2 300 3 pod lost refl (omega arith) (omega arith) (omega arith)

-- The third copy is answered; the first two were counted.
request-respond_example :
    request launch env sender 3 (req_mem_update 300 1) outcomes pod
    ≡ some (
        replied
          (rsp_mem_update 1)
          (record pod { gpu_mem_used = 900; allocation_map = (3, 900) ∷ [] }))
unfolding name_of Fits respond repeated hook_update_memory_usage modify
request-respond_example =
    request-respond launch env sender 3 (req_mem_update 300 1) (omega arith) (omega arith)
      (omega arith, omega arith) (λ overuse burst. omega arith) outcomes 2 pod
      (record { used = omega arith; limit = omega arith }) lost refl (omega arith)
