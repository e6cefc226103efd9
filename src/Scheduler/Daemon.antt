-- ===== src/Scheduler/Daemon.antt =====
-- The loop of `select_candidate` over its wake-ups, and a pass of `schedule_daemon_func`.
use gemini.Prelude.{
  Bool, true, false, Option, none, some, List, [], ◌∷◌, if◌then◌else◌, Name, name_eq,
}
use gemini.Double.{Double}
use gemini.Sort.{Sort}
use gemini.Scheduler.Defs.{Candidate, get_quota, record_token}
use gemini.Scheduler.Select.{Scheduler, selected, sleep, fault, find_client, select_round}
use gemini.Scheduler.Requests.{put_client, Message, handle_messages}

-- How `pthread_cond_timedwait` returns: by a timeout or by a signal, with the messages handled
-- meanwhile, and the time of the next look at the clock.
pub record Wake (D : Type 0) : Type 0 where
  pub timed_out : Bool
  pub messages : List (Message D)
  pub now : D

-- `select_candidate` selects with some wake-ups still to come, faults, or sleeps past the last one.
pub data Selecting (D : Type 0) : Type 0 where
  done : Candidate D → Scheduler D → List (Wake D) → Selecting D
  asleep : Scheduler D → Selecting D
  faulty : Selecting D

-- A pass of the daemon gives a quota, faults, or is still in `select_candidate`.
pub data Pass (D : Type 0) : Type 0 where
  gives : Candidate D → D → Scheduler D → List (Wake D) → Pass D
  sleeping : Scheduler D → Pass D
  failed : Pass D

module _ {D : Type 0} where
  unfoldable pub waits_again : Name → List (Candidate D) → Bool
  waits_again n [] = false
  waits_again n (c ∷ cs) = if name_eq c.name n then true else waits_again n cs

module _ {D : Type 0} ⦃d : Double D⦄ where
  -- The wait for the token: until the timeout, or until the client that holds it waits again. With
  -- no wake-up left it goes on: `none`.
  unfoldable pub await_return :
      Name → List (Wake D) → Scheduler D → Option (Scheduler D × List (Wake D))
  await_return n [] s = none
  await_return n (w ∷ ws) s =
      let s' = handle_messages s w.messages in
      let rest = await_return n ws s' in
      if w.timed_out
      then some (s', ws)
      else if waits_again n s'.candidates
      then some (s', ws)
      else rest

  unfoldable pub select_candidate : Sort → D → Scheduler D → List (Wake D) → Selecting D
  select_candidate sorter now s [] = elim (select_round sorter now s) [
    | selected c t ↦ done c t []
    | sleep wait t ↦ asleep t
    | fault ↦ faulty
  ]
  select_candidate sorter now s (w ∷ ws) = elim (select_round sorter now s) [
    | selected c t ↦ done c t (w ∷ ws)
    | sleep wait t ↦ select_candidate sorter w.now (handle_messages t w.messages) ws
    | fault ↦ faulty
  ]

  -- The quota of the selected client, and the entry of its token; `start` is the clock at `Record`.
  unfoldable pub grant : D → Candidate D → Scheduler D → List (Wake D) → Pass D
  unfolding find_client get_quota put_client record_token
  grant start c s ws = elim (find_client c.name s.client_info_map) [
    | none ↦ failed
    | some info ↦
        let (quota, info') = get_quota info in
        gives c quota
          (record s {
            client_info_map = put_client c.name info' s.client_info_map;
            history_list = record_token info' quota start s.history_list;
          })
          ws
  ]

  unfoldable pub schedule_pass : Sort → (now start : D) → Scheduler D → List (Wake D) → Pass D
  unfolding select_candidate grant
  schedule_pass sorter now start s ws = elim (select_candidate sorter now s ws) [
    | done c t rest ↦ grant start c t rest
    | asleep t ↦ sleeping t
    | faulty ↦ failed
  ]
