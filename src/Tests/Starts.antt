-- ===== src/Tests/Starts.antt =====
-- `accept` fails once between two connections: the Pod manager returns, the scheduler makes a thread for -1.
use gemini.Prelude.{ℕ, ◌≡◌, refl, true, Option, none, some, List, [], ◌∷◌}
use gemini.Prelude.Int.{pos, negsuc}
use gemini.Double.{fixed_double}
use gemini.PodManager.Memory.{retrieve_mem_info, accept, insert}
use gemini.PodManager.Accepting.{accept_all}
use gemini.Scheduler.Start.{Host, exited, first_failure, accept_pods, serve_file, main}
use gemini.Tests.Schedulers.{busy}
use gemini.Tests.ResourceFiles.{one_place, stale}

abbrev results : List (Option ℕ)
results = some 5 ∷ none ∷ some 6 ∷ []

scheduler_goes_on : accept_pods results ≡ (pos 5 ∷ negsuc 0 ∷ pos 6 ∷ [], none)
unfolding accept_pods
scheduler_goes_on = refl

pod_manager_returns : accept_all results (retrieve_mem_info 0 1000) ≡ record {
  memory = record { gpu_mem_limit = 1000; gpu_mem_used = 0; allocation_map = (5, 0) ∷ [] };
  threads = 5 ∷ [];
  returned = true;
}
unfolding accept_all accept insert retrieve_mem_info
pod_manager_returns = refl

abbrev no_file : Host
no_file = record {
  text = none;
  sockfd = pos 3;
  bind_rc = pos 0;
  thread_rc = pos 0;
  accepts = results;
}

file_missing : main one_place (pos 7) stale no_file busy ≡ some (exited (pos 1))
unfolding main serve_file
file_missing = refl

-- The port is in use.
bind_fails : first_failure (record no_file { bind_rc = negsuc 0 }) ≡ some (negsuc 0)
unfolding first_failure
bind_fails = refl
