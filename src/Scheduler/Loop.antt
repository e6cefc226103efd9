-- ===== src/Scheduler/Loop.antt =====
-- The loop of `schedule_daemon_func`: passes, and what is handled between them.
use gemini.Prelude.{◌≡◌, ◌≢◌, some, List, [], ◌∷◌, ◌++◌}
use gemini.Double.{Double}
use gemini.Sort.{Sort}
use gemini.Scheduler.Defs.{Candidate}
use gemini.Scheduler.Select.{Scheduler}
use gemini.Scheduler.Requests.{Message, handle_messages}
use gemini.Scheduler.Daemon.{Wake, gives, await_return, schedule_pass}

-- The messages that are handled during the wake-ups.
unfoldable pub received : {D : Type 0} → List (Wake D) → List (Message D)
received [] = []
received (w ∷ ws) = w.messages ++ received ws

module _ {D : Type 0} ⦃d : Double D⦄ where
  -- A run of the daemon: the messages it handles, and to whom it gives the token with which quota. A pass
  -- is from the selection to the end of the wait for the token, with all its wake-ups; the wait for a
  -- request is no more than the messages that come.
  pub data Daemon (sorter : Sort)
      : Scheduler D → List (Message D) → List (Candidate D) → Scheduler D → Type 0 where
    stop : {s : Scheduler D} → Daemon sorter s [] [] s
    arrival :
        {s t : Scheduler D} {ms : List (Message D)} {cs : List (Candidate D)} (m : Message D)
        → Daemon sorter (handle_messages s (m ∷ [])) ms cs t
        → Daemon sorter s (m ∷ ms) cs t
    pass :
        {s t : Scheduler D} {ms : List (Message D)} {cs : List (Candidate D)} (now start : D)
        (ws rest : List (Wake D)) (c : Candidate D) (quota : D) (s' s'' : Scheduler D)
        → s.candidates ≢ []
        → schedule_pass sorter now start s ws ≡ gives c quota s' rest
        → await_return c.name rest s' ≡ some (s'', [])
        → Daemon sorter s'' ms cs t
        → Daemon sorter s (received ws ++ ms) (c ∷ cs) t
