-- ===== src/Tests/Schedulers.antt =====
-- Two clients that may use 80% of ten seconds each and ask for 50%: the first has used 7 s of the
-- window, the second 0.5 s.
use mathlib.Core.Option.{some-injective}
use gemini.Prelude.{
  ℕ, ◌*◌, ◌^◌, ◌≡◌, refl, inl, inr, true, false, List, [], ◌∷◌, ◌++◌, Name, name_eq, reject,
}
use gemini.Prelude.Int.{ℤ, pos, negsuc, ltb_ℤ}
use gemini.Double.{Fixed, fixed, fixed_double, Fixed-IsOrdered, ms}
use gemini.Sort.{is_strict_weak, by_insertion, insertion_sort, IsStrictWeak}
use gemini.Scheduler.Defs.{
  History, ClientInfo, Candidate, ValidCandidate, schd_priority, get_quota, update_return_time,
}
use gemini.Scheduler.Client.{update_return_time-last, get_quota_bounds}
use gemini.Scheduler.Daemon.{schedule_pass}
use gemini.Scheduler.Safety.{IsOrderly, PassIsSound, schedule_pass-IsSound}
use gemini.Scheduler.Usage.{
  stamps, skip_before, sweep, sweep_stamp, charge, erase_name, usages, beyond_window,
}
use gemini.Scheduler.Select.{
  Scheduler, AllKnown, selected, sleep, find_client, prune, select_round, take_at, valid_candidates,
  valid_candidate,
}
use gemini.Scheduler.Rounds.{EachContender}
use gemini.Scheduler.Selection.{
  IsChoice, select_round-queue, select_round-IsBest, select_round-sleep, select_round_gives,
}
use gemini.Scheduler.Priority.{IsOff, schd_priority-IsStrictWeak, schd_priority_cycle}

abbrev pub first_name : Name
first_name = 1 ∷ []

abbrev pub second_name : Name
second_name = 2 ∷ []

abbrev pub tenths : ℕ → Fixed
tenths n = fixed (pos (n * 10 ^ 8))

abbrev pub client : Name → ClientInfo Fixed
client n = record {
  name = n;
  gpu_mem_limit = 1000;
  min_frac = tenths 5;
  max_frac = tenths 8;
  base_quota = ms 250;
  min_quota = ms 100;
  max_quota = ms 8000;
  quota = ms 250;
  latest_overuse = ms 0;
  latest_actual_usage = ms 0;
  burst = ms 0;
}

abbrev pub waiting : Name → Candidate Fixed
waiting n = record { socket = 7; name = n; req_id = 3; arrived_time = ms 19_900 }

abbrev pub token : Name → ℕ → ℕ → History Fixed
token n start end = record { name = n; start = ms start; end = ms end }

abbrev pub busy : Scheduler Fixed
busy = record {
  base_quota = ms 250;
  min_quota = ms 100;
  window_size = ms 10_000;
  history_list =
      token first_name 8_000 9_000
      ∷ token first_name 12_000 19_000
      ∷ token second_name 19_000 19_500
      ∷ [];
  client_info_map = (first_name, client first_name) ∷ (second_name, client second_name) ∷ [];
  candidates = waiting first_name ∷ waiting second_name ∷ [];
}

abbrev pub now : Fixed
now = ms 20_000

abbrev pub served : Scheduler Fixed
served = record busy {
  history_list = token first_name 12_000 19_000 ∷ token second_name 19_000 19_500 ∷ [];
  candidates = waiting first_name ∷ [];
}

usage_runs :
    (usages by_insertion (ms 10_000) served.history_list first_name ≡ ms 7_000)
    × (usages by_insertion (ms 10_000) served.history_list second_name ≡ ms 500)
unfolding usages stamps skip_before sweep sweep_stamp charge erase_name by_insertion insertion_sort
    name_eq
usage_runs = (refl, refl)

second_goes_first : select_round by_insertion now busy ≡ selected (waiting second_name) served
unfolding select_round usages stamps skip_before sweep sweep_stamp charge erase_name by_insertion
    insertion_sort name_eq reject find_client take_at valid_candidates schd_priority is_strict_weak
second_goes_first = refl

served_leaves_others :
    (pre : List (Candidate Fixed)) × (post : List (Candidate Fixed)) × (busy.candidates
      ≡ pre ++ waiting second_name ∷ post)
    × (served ≡ record busy {
      history_list = reject (beyond_window (ms 10_000)) busy.history_list;
      candidates = pre ++ post;
    })
served_leaves_others =
    select_round-queue by_insertion now busy served (waiting second_name) second_goes_first

-- The first client is above its request, and the second below.
none_at_request : EachContender by_insertion now IsOff (prune now busy)
unfolding prune usages stamps skip_before sweep sweep_stamp charge erase_name by_insertion
    insertion_sort name_eq reject find_client valid_candidate
none_at_request = (
  (λ info known _. rw (← some-injective _ _ known) (inr refl)),
  ((λ info known _. rw (← some-injective _ _ known) (inl refl)), tt),
)

select_round-IsBest_example :
    (front : Candidate Fixed) × (cs : List (Candidate Fixed)) × (busy.candidates ≡ front ∷ cs)
    × IsChoice by_insertion now busy front cs (waiting second_name) served
select_round-IsBest_example =
    select_round-IsBest by_insertion now Fixed-IsOrdered busy served (waiting second_name)
      none_at_request second_goes_first

busy_known : AllKnown busy
unfolding find_client name_eq
busy_known = ((client first_name, refl), ((client second_name, refl), tt))

second_free : ¬ EachContender by_insertion now (λ _. ⊥) (prune now busy)
unfolding prune usages stamps skip_before sweep sweep_stamp charge erase_name by_insertion
    insertion_sort name_eq reject find_client valid_candidate
second_free none_free = none_free.1.0 (client second_name) refl refl

select_round_gives_example :
    (c : Candidate Fixed) × (t : Scheduler Fixed) × (select_round by_insertion now busy
      ≡ selected c t)
select_round_gives_example =
    select_round_gives by_insertion now Fixed-IsOrdered busy (λ e. cc) busy_known none_at_request
      second_free

abbrev spent : Scheduler Fixed
spent = record busy {
  history_list = token first_name 11_000 19_500 ∷ [];
  candidates = waiting first_name ∷ [];
}

first_sleeps : select_round by_insertion now spent ≡ sleep (ms 9_500) spent
unfolding select_round usages stamps skip_before sweep sweep_stamp charge erase_name by_insertion
    insertion_sort name_eq reject find_client take_at valid_candidates schd_priority is_strict_weak
first_sleeps = refl

spent_sleeps : EachContender by_insertion now (λ _. ⊥) (prune now spent) × (spent ≡ prune now spent)
spent_sleeps = select_round-sleep by_insertion now spent spent (ms 9_500) first_sleeps

schd_priority-IsStrictWeak_example : IsStrictWeak {A = ValidCandidate Fixed} IsOff schd_priority
schd_priority-IsStrictWeak_example = schd_priority-IsStrictWeak Fixed-IsOrdered

-- A candidate that lacks so much of its request, or has used so much more.
abbrev lacking : ℤ → ℕ → ValidCandidate Fixed
lacking missing used = record {
  missing = fixed missing;
  remaining = ms 1;
  usage = ms used;
  arrived_time = ms 0;
  iter = 0;
}

schd_priority_cycle_example :
    (schd_priority (lacking (negsuc 0) 1) (lacking (pos 0) 2) ≡ true)
    × (schd_priority (lacking (pos 0) 2) (lacking (pos 1) 3) ≡ true)
    × (schd_priority (lacking (pos 1) 3) (lacking (negsuc 0) 1) ≡ true)
schd_priority_cycle_example =
    schd_priority_cycle (lacking (negsuc 0) 1) (lacking (pos 0) 2) (lacking (pos 1) 3) refl refl
      refl refl refl refl refl

update_return_time-last_example :
    (update_return_time (client first_name) (ms 30) (ms 9_010) (token first_name 8_000 9_000 ∷ [])
      ≡ (
        record (client first_name) { latest_actual_usage = ms 1_010; latest_overuse = ms 30 },
        token first_name 8_000 9_010 ∷ [],
      ))
    × (update_return_time (client first_name) (ms 30) (ms 9_010) []
        ≡ (record (client first_name) { latest_overuse = ms 30 }, []))
unfolding name_eq
update_return_time-last_example =
    update_return_time-last (client first_name) (ms 30) (ms 9_010) [] []
      (token first_name 8_000 9_000) refl tt

get_quota_bounds_example :
    let c = record (client first_name) { burst = ms 50_000 } in
    let quota = (get_quota c).0 in
    (false ≡ false
      → (ltb_ℤ (ms 8000).units quota.units ≡ false)
        × (false ≡ false → ltb_ℤ quota.units (ms 100).units ≡ false))
    × (false ≡ true → quota ≡ ms 250)
    × ((get_quota c).1 ≡ record c { quota = quota })
get_quota_bounds_example =
    get_quota_bounds Fixed-IsOrdered (record (client first_name) { burst = ms 50_000 })

schedule_pass-IsSound_example : PassIsSound (schedule_pass by_insertion now (ms 20_001) busy [])
unfolding find_client name_eq IsOrderly
schedule_pass-IsSound_example =
    schedule_pass-IsSound Fixed-IsOrdered by_insertion now (ms 20_001) busy [] (busy_known, λ e. cc)
      none_at_request
