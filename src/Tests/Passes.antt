-- ===== src/Tests/Passes.antt =====
-- A pass of the daemon, and the wait at its end.
use gemini.Prelude.{
  arith, ℕ, ◌≡◌, ◌⊎◌, refl, true, false, some, List, [], ◌∷◌, ◌++◌, Name, name_eq, name_eq_sound,
  reject,
}
use gemini.Double.{Fixed, fixed_double, ms}
use gemini.Sort.{is_strict_weak, by_insertion, insertion_sort}
use gemini.Scheduler.Defs.{schd_priority}
use gemini.Scheduler.Usage.{stamps, skip_before, sweep, sweep_stamp, charge, erase_name, usages}
use gemini.Scheduler.Select.{
  Scheduler, find_client, appears, select_round, take_at, valid_candidates,
}
use gemini.Scheduler.Requests.{req_quota, Message, handle_message, handle_messages}
use gemini.Scheduler.Daemon.{gives, schedule_pass, Wake, await_return, waits_again, grant}
use gemini.Scheduler.Queue.{knows, requests}
use gemini.Scheduler.Loop.{received, Daemon, stop, arrival, pass}
use gemini.Scheduler.Account.{IsConserved}
use gemini.Scheduler.Conservation.{Daemon-IsConserved}
use gemini.Scheduler.Waiting.{Ended, await_return-deadline}
use gemini.Scheduler.Exclusion.{IsSingle, schedule_pass-returned}
use gemini.Tests.Schedulers.{first_name, second_name, token, waiting, busy, served, now}

abbrev asks : Name → ℕ → Message Fixed
asks n id = record {
  socket = 7;
  sender = n;
  req_id = id;
  request = req_quota (ms 0) (ms 0);
  now = ms 20_100;
  arrived = ms 20_101;
}

abbrev woken : List (Message Fixed) → Wake Fixed
woken messages = record { timed_out = false; messages = messages; now = ms 20_110 }

abbrev timeout : Wake Fixed
timeout = record { timed_out = true; messages = []; now = ms 20_251 }

-- The second client has the token for 250 ms.
abbrev granted : Scheduler Fixed
granted = record served {
  history_list =
      token first_name 12_000 19_000
      ∷ token second_name 19_000 19_500
      ∷ token second_name 20_001 20_251
      ∷ [];
}

abbrev wakes : List (Wake Fixed)
wakes = woken (asks first_name 4 ∷ []) ∷ woken (asks second_name 5 ∷ []) ∷ []

abbrev after_pass : Scheduler Fixed
after_pass = handle_messages granted (asks first_name 4 ∷ asks second_name 5 ∷ [])

abbrev stranger : Message Fixed
stranger = asks (3 ∷ []) 6

one_pass :
    Daemon by_insertion busy (stranger ∷ received wakes ++ []) (waiting second_name ∷ []) after_pass
unfolding select_round usages is_strict_weak stamps skip_before sweep sweep_stamp charge erase_name
    by_insertion insertion_sort name_eq reject find_client take_at valid_candidates schd_priority
    schedule_pass await_return handle_messages grant appears waits_again handle_message
one_pass = arrival stranger (
    pass now (ms 20_001) wakes wakes (waiting second_name) (ms 250) granted after_pass (λ e. cc)
      refl refl stop)

Daemon-IsConserved_example :
    IsConserved busy (stranger ∷ received wakes ++ []) (waiting second_name ∷ []) after_pass
Daemon-IsConserved_example = Daemon-IsConserved one_pass

both-IsSingle : IsSingle (busy.candidates ++ requests (knows busy.client_info_map) (received []))
unfolding requests received
both-IsSingle n = ground (arith, name_eq_sound first_name n, name_eq_sound second_name n)

first_pass :
    schedule_pass by_insertion now (ms 20_001) busy wakes
    ≡ gives (waiting second_name) (ms 250) granted wakes
unfolding select_round usages is_strict_weak stamps skip_before sweep sweep_stamp charge erase_name
    by_insertion insertion_sort name_eq reject find_client take_at valid_candidates schd_priority
    schedule_pass grant appears
first_pass = refl

its_wait : await_return second_name wakes granted ≡ some (after_pass, [])
unfolding await_return handle_messages handle_message name_eq waits_again find_client
its_wait = refl

schedule_pass-returned_example :
    (end : Ended second_name granted wakes after_pass []) × ((end.last.timed_out ≡ true)
      ⊎ (waits_again second_name
            (requests (knows granted.client_info_map) (received end.before ++ end.last.messages))
          ≡ true))
schedule_pass-returned_example =
    schedule_pass-returned by_insertion now (ms 20_001) busy granted after_pass wakes [] wakes []
      (waiting second_name) (ms 250) first_pass refl both-IsSingle its_wait

ends_at_timeout :
    (t : Scheduler Fixed) × (between : List (Wake Fixed)) × (await_return second_name
        (woken (asks first_name 4 ∷ []) ∷ timeout ∷ [])
        granted
      ≡ some (t, between ++ []))
ends_at_timeout =
    await_return-deadline second_name (woken (asks first_name 4 ∷ []) ∷ []) [] timeout granted refl

-- With a second request of its holder in the queue, the wait for the token ends at the first signal, here
-- for a request of another client, while the holder has not returned.
ends_early :
    let s = handle_messages granted (asks second_name 5 ∷ []) in
    let t = handle_messages granted (asks second_name 5 ∷ asks first_name 4 ∷ []) in
    await_return second_name (woken (asks first_name 4 ∷ []) ∷ timeout ∷ []) s
    ≡ some (t, timeout ∷ [])
unfolding await_return handle_messages name_eq waits_again find_client handle_message
ends_early = refl
