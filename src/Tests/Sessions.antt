-- ===== src/Tests/Sessions.antt =====
-- Requests to allocate 600 bytes, for the limit and twice to free 200, at a Pod manager with another
-- connection; and a Pod manager that asks the scheduler for its limit and for the token.
use gemini.Prelude.{ℕ, ◌≡◌, arith, some, List, [], ◌∷◌}
use gemini.Double.{Fixed, fixed_double, ms}
use gemini.Comm.Buffer.{Buffer, ◌>>=◌}
use gemini.Comm.Messages.{Payload, req_quota, req_mem_limit, req_mem_update, name_of}
use gemini.Comm.Receive.{Fits}
use gemini.PodManager.Memory.{Memory}
use gemini.PodManager.Session.{Sent}
use gemini.Scheduler.Requests.{handle_messages}
use gemini.Scheduler.Session.{
  Timed, pod_client_func, prepare_timed, messages_of, responses, Sends,
  pod_client_func-handle_messages,
}
use gemini.Tests.Schedulers.{busy, now}
use gemini.Tests.Wires.{env, sender}
use gemini.Tests.SchedulerWires as Pod

abbrev shared_pod : Memory
shared_pod = record { gpu_mem_limit = 1000; gpu_mem_used = 100; allocation_map = (4, 100) ∷ [] }

-- The last request comes twice.
abbrev request : ℕ → Payload → Sent
request id p = record { sender = record sender { id = id }; payload = p }

abbrev session : List Sent
session =
    request 7 (req_mem_update 600 1)
    ∷ request 8 req_mem_limit
    ∷ request 9 (req_mem_update 200 0)
    ∷ request 9 (req_mem_update 200 0)
    ∷ []

abbrev timed : Payload → Timed Fixed
timed p = record { payload = p; now = now; arrived = ms 20_001 }

abbrev two_requests : List (Timed Fixed)
two_requests = timed req_mem_limit ∷ timed (req_quota 5_000_000 20_000_000) ∷ []

pod_client_func-handle_messages_example :
    let msgs = messages_of Pod.of_bits 4 Pod.env Pod.sender two_requests in
    (sbufs : List Buffer) × ((prepare_timed Pod.env Pod.sender two_requests >>= λ rbufs.
    pod_client_func Pod.of_bits 4 rbufs busy)
      ≡ some (handle_messages busy msgs, sbufs))
    × Sends (responses busy msgs) sbufs
unfolding name_of Fits
pod_client_func-handle_messages_example =
    pod_client_func-handle_messages Pod.of_bits 4 Pod.env Pod.sender two_requests busy (omega arith)
      (omega arith, tt) (omega arith)
