-- ===== src/Tests/Startups.antt =====
-- A Pod manager that reaches the scheduler at the third attempt and is told a limit of 1000 bytes, one that is
-- never answered, and the settings of an environment.
use gemini.Prelude.{ℕ, zero, suc, ◌≡◌, refl, true, none, some, [], ◌∷◌, ◌++◌}
use gemini.Prelude.Int.{ℤ, pos, negsuc}
use gemini.Comm.Buffer.{Buffer, to_bytes, of_bytes, read, get_msg_data}
use gemini.Comm.Messages.{parse_response}
use gemini.Comm.Attempts.{Attempt}
use gemini.Comm.Receive.{receive_answer, get_answer}
use gemini.Hook.Connection.{atoi, signed_digits, digits, to_uint16}
use gemini.PodManager.Memory.{retrieve_mem_info}
use gemini.PodManager.Startup.{from_answer}
use gemini.Comm.FiveAttempts.{error_after, any_succeeds}
use gemini.PodManager.Launch.{
  Network, configure, text_or, strcpy, port_or, default_ip, main, serving, exited, errors, ended,
  first_error, main-first_error,
}

abbrev attempt : ℤ → Attempt
attempt rc = record { rc = rc; errno = pos 111 }

abbrev third : ℕ → Attempt
third zero = attempt (negsuc 0)
third (suc zero) = attempt (negsuc 0)
third _ = attempt (pos 0)

third-errno : (i : ℕ) → (third i).errno ≡ pos 111
third-errno zero = refl
third-errno (suc zero) = refl
third-errno (suc (suc i)) = refl

abbrev response : Buffer
response = to_bytes 4 7 ++ to_bytes 8 0 ++ to_bytes 8 1000

abbrev network : Network
network = record {
  socket_error = none;
  connects = third;
  asks = λ i. attempt (pos 0);
  response = response;
  has_accept_socket = true;
  binds = λ i. attempt (pos 0);
}

main-first_error_example : main network ≡ some (serving (retrieve_mem_info 0 1000))
unfolding to_bytes of_bytes read get_msg_data parse_response receive_answer get_answer from_answer
    retrieve_mem_info errors ended first_error error_after any_succeeds
main-first_error_example =
    main-first_error network (retrieve_mem_info 0 1000) refl (λ i _. rw (third-errno i) refl)
      (λ i _. refl) (λ i _. refl)

-- The error of the last attempt to ask.
unanswered_exits :
    main (record network { asks = λ i. attempt (negsuc 0) }) ≡ some (exited (pos 111))
unfolding to_bytes of_bytes read get_msg_data parse_response receive_answer get_answer from_answer
    retrieve_mem_info errors ended first_error error_after any_succeeds
unanswered_exits =
    main-first_error (record network { asks = λ i. attempt (negsuc 0) }) (retrieve_mem_info 0 1000)
      refl (λ i _. rw (third-errno i) refl) (λ i _. refl) (λ i _. refl)

-- "50060" as the port of the scheduler.
settings_read :
    configure (record {
      pod_name = some (97 ∷ []);
      pod_manager_port = none;
      scheduler_ip = none;
      scheduler_port = some (53 ∷ 48 ∷ 48 ∷ 54 ∷ 48 ∷ []);
      host_name = 98 ∷ [];
    })
    ≡ some (record {
      pod_name = 97 ∷ [];
      pod_server_port = 50052;
      scheduler_ip = default_ip;
      scheduler_port = 50060;
    })
unfolding configure text_or strcpy port_or atoi signed_digits digits to_uint16
settings_read = refl
