-- ===== src/Tests/SchedulerWires.antt =====
-- A Pod manager named as the first client of the scheduler: its requests over the wire.
use gemini.Prelude.{ℕ, ◌≡◌, refl, arith, none, some, [], ◌∷◌, name_eq}
use gemini.Prelude.Int.{pos}
use gemini.Double.{Fixed, fixed, fixed_double, ms}
use gemini.Comm.Buffer.{zeros, ◌>>=◌}
use gemini.Comm.Messages.{req_quota, Sender, Environment, name_of, prepare_request, req_msg_len}
use gemini.Comm.Receive.{Fits}
use gemini.PodManager.Memory.{retrieve_mem_info}
use gemini.PodManager.Startup.{startup, startup-retrieve_mem_info}
use gemini.Scheduler.Requests.{handle_message}
use gemini.Scheduler.Select.{find_client}
use gemini.Scheduler.Wire.{handle_bytes, sent, decoded, handle_bytes-prepare_request}
use gemini.Tests.Schedulers.{first_name, client, busy, now}

abbrev pub of_bits : ℕ → Fixed
of_bits n = fixed (pos n)

abbrev pub env : Environment
env = record { pod_name = some first_name; host_name = 98 ∷ [] }

abbrev pub sender : Sender
sender = record { client_name = none; id = 7 }

quota_request :
    (prepare_request env sender (req_quota 5_000_000 20_000_000) (zeros req_msg_len) >>= λ q.
    handle_bytes of_bits 4 q.0 now (ms 20_001) busy)
    ≡ sent of_bits (
        handle_message 4
          (name_of env sender)
          7
          (decoded of_bits (req_quota 5_000_000 20_000_000))
          now
          (ms 20_001)
          busy)
unfolding name_of Fits
quota_request =
    handle_bytes-prepare_request of_bits env sender (req_quota 5_000_000 20_000_000) 4 now
      (ms 20_001) busy (omega arith) (omega arith, tt) (omega arith) (omega arith, omega arith)

pod_manager_starts :
    startup of_bits env sender 4 now (ms 20_001) busy ≡ some (busy, retrieve_mem_info 0 1000)
unfolding name_of find_client name_eq
pod_manager_starts =
    startup-retrieve_mem_info of_bits env sender 4 now (ms 20_001) busy (client first_name) refl
      (omega arith) (omega arith, tt) (omega arith) (omega arith)
