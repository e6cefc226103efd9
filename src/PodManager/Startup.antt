-- ===== src/PodManager/Startup.antt =====
-- `retrieve_mem_info` of src/pod-manager.cpp: before it serves, the Pod manager asks the scheduler for its limit.
use gemini.Prelude.{
  ℕ, ◌^◌, ◌<◌, ◌≤◌, ◌≡◌, ◌==◌, if◌then◌else◌, refl, sym, ap, ◌∙◌, Option, none, some, arith, All,
  Option-cases, inl, inr,
}
use gemini.Double.{Double}
use gemini.Comm.Buffer.{Buffer, zeros, zeros-length, >>=_assoc, ◌>>=◌}
use gemini.Comm.Messages.{
  req_mem_limit, Answer, rsp_mem_limit, prepare_request, prepare_response, Sender, Environment,
  name_of, rsp_msg_len, req_msg_len,
}
use gemini.Comm.Receive.{Fits, receive_answer}
use gemini.Comm.RoundTrip.{request_size, AnswerFits, receive_answer-prepare_response}
use gemini.PodManager.Memory.{Memory, retrieve_mem_info}
use gemini.Scheduler.Defs.{ClientInfo}
use gemini.Scheduler.Select.{Scheduler, find_client}
use gemini.Scheduler.Requests.{handle_message, mem_limit}
use gemini.Scheduler.Wire.{handle_bytes, handle_bytes-prepare_request, decoded, send_response, sent}

-- The memory from what the response holds; nothing may be in use, by the assertion.
unfoldable pub from_answer : Answer → Option Memory
unfolding retrieve_mem_info
from_answer (rsp_mem_limit used total) =
    if used == 0 then some (retrieve_mem_info used total) else none
from_answer _ = none

module _ {D : Type 0} ⦃d : Double D⦄ where
  -- What is made of the response; without one the Pod manager does not start.
  unfoldable pub read_mem_info : Scheduler D × Option Buffer → Option (Scheduler D × Memory)
  unfolding from_answer
  read_mem_info (s, none) = none
  read_mem_info (s, some rbuf) = receive_answer 1 rbuf >>= λ a. from_answer a.1 >>= λ m. some (s, m)

  module _ (of_bits : ℕ → D) where
    -- The exchange of `retrieve_mem_info` with the scheduler; `socket` is the scheduler's end.
    unfoldable pub startup :
        Environment → Sender → ℕ → (now arrived : D) → Scheduler D → Option (Scheduler D × Memory)
    unfolding read_mem_info zeros
    startup env sender socket now arrived s =
        prepare_request env sender req_mem_limit (zeros req_msg_len) >>= λ q.
        handle_bytes of_bits socket q.0 now arrived s >>= read_mem_info

    sent-read_mem_info :
        (id total : ℕ) (s : Scheduler D)
        → id < 256 ^ 4
        → total < 256 ^ 8
        → (sent of_bits (s, some (mem_limit id 0 total)) >>= read_mem_info)
          ≡ some (s, retrieve_mem_info 0 total)
    unfolding send_response read_mem_info from_answer AnswerFits
    sent-read_mem_info id total s hid lim =
        elim (Option-cases (prepare_response id (rsp_mem_limit 0 total) (zeros rsp_msg_len))) [
          | inl fault ↦ absurd (ground (arith, received, fault))
          | inr (c, e) ↦ rw e (rw (rw e at received) refl)
        ]
      where
        received :
            (prepare_response id (rsp_mem_limit 0 total) (zeros rsp_msg_len) >>= λ m.
            receive_answer 1 m.0)
            ≡ some (id, rsp_mem_limit 0 total)
        received =
            receive_answer-prepare_response id (rsp_mem_limit 0 total) (zeros rsp_msg_len)
              (zeros-length rsp_msg_len) hid (omega arith, lim)

    -- A Pod manager whose name the resource file has starts with no memory in use and the limit of its
    -- client, and the scheduler's state is as before, for a name that leaves room for the request and holds
    -- no zero byte, and a limit and an id that fit their types.
    pub startup-retrieve_mem_info :
        (env : Environment) (sender : Sender) (socket : ℕ) (now arrived : D) (s : Scheduler D)
        (info : ClientInfo D)
        → find_client (name_of env sender) s.client_info_map ≡ some info
        → request_size (name_of env sender) req_mem_limit ≤ req_msg_len
        → All (λ b. 0 < b) (name_of env sender)
        → sender.id < 256 ^ 4
        → info.gpu_mem_limit < 256 ^ 8
        → startup env sender socket now arrived s ≡ some (s, retrieve_mem_info 0 info.gpu_mem_limit)
    unfolding startup handle_message decoded Fits
    startup-retrieve_mem_info env sender socket now arrived s info known room text hid lim =
        sym (
          >>=_assoc (prepare_request env sender req_mem_limit (zeros req_msg_len))
            (λ q. handle_bytes of_bits socket q.0 now arrived s) read_mem_info)
        ∙ (ap (λ r. r >>= read_mem_info)
              (handle_bytes-prepare_request of_bits env sender req_mem_limit socket now arrived s
                room text hid tt)
            ∙ rw handled (sent-read_mem_info sender.id info.gpu_mem_limit s hid lim))
      where
        handled :
            handle_message socket
              (name_of env sender)
              sender.id
              (decoded of_bits req_mem_limit)
              now
              arrived
              s
            ≡ (s, some (mem_limit sender.id 0 info.gpu_mem_limit))
        handled = rw (handle_message, known) refl
