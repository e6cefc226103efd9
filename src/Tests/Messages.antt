-- ===== src/Tests/Messages.antt =====
-- Concrete messages.
use gemini.Prelude.{◌<◌, ◌≡◌, refl, none, some, [], ◌∷◌, ◌++◌, arith, ◌↔◌, length}
use gemini.Comm.Buffer.{Buffer, ◌>>=◌}
use gemini.Comm.Messages.{
  Payload, req_mem_update, rsp_mem_limit, Sender, Environment, name_of, prepare_request,
  prepare_response,
}
use gemini.Comm.Receive.{receive, receive_answer, Fits}
use gemini.Comm.RoundTrip.{
  AnswerFits, request_size, prepare_request-none, receive-prepare_request,
  receive_answer-prepare_response,
}

abbrev ten_bytes : Buffer
ten_bytes = 0 ∷ 0 ∷ 0 ∷ 0 ∷ 0 ∷ 0 ∷ 0 ∷ 0 ∷ 0 ∷ 0 ∷ []

abbrev forty_bytes : Buffer
forty_bytes = ten_bytes ++ (ten_bytes ++ (ten_bytes ++ ten_bytes))

abbrev eighty_bytes : Buffer
eighty_bytes = forty_bytes ++ forty_bytes

-- POD_NAME is "pod1".
abbrev pod : Environment
pod = record { pod_name = some (112 ∷ 111 ∷ 100 ∷ 49 ∷ []); host_name = 104 ∷ [] }

abbrev fresh : Sender
fresh = record { client_name = none; id = 0 }

abbrev allocation : Payload
allocation = req_mem_update 4096 1

receive-prepare_request_example :
    (prepare_request pod fresh allocation eighty_bytes >>= λ m. receive m.0)
    ≡ some (112 ∷ 111 ∷ 100 ∷ 49 ∷ [], 0, allocation)
unfolding name_of Fits
receive-prepare_request_example =
    receive-prepare_request pod fresh allocation eighty_bytes (omega arith)
      (omega arith, (omega arith, (omega arith, (omega arith, tt)))) (omega arith) (omega arith)
      (omega arith, omega arith)

every_answer_read :
    (prepare_response 7 (rsp_mem_limit 0 4096) forty_bytes >>= λ m. receive_answer 1 m.0)
    ≡ some (7, rsp_mem_limit 0 4096)
unfolding AnswerFits
every_answer_read =
    receive_answer-prepare_response 7 (rsp_mem_limit 0 4096) forty_bytes refl (omega arith)
      (omega arith, omega arith)

prepare_request-none_example :
    (prepare_request pod fresh allocation ten_bytes ≡ none)
    ↔ (length ten_bytes < request_size (name_of pod fresh) allocation)
prepare_request-none_example = prepare_request-none pod fresh allocation ten_bytes
