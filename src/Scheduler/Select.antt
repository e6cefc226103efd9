-- ===== src/Scheduler/Select.antt =====
-- The second half of `select_candidate`, its loop, and the sleep between two rounds.
use gemini.Prelude.{
  ◌≡◌, All, ℕ, zero, suc, ◌+◌, Bool, true, false, Option, none, some, List, [], ◌∷◌, if◌then◌else◌,
  Name, name_eq, reject,
}
use gemini.Double.{Double}
use gemini.Sort.{Sort, is_strict_weak}
use gemini.Scheduler.Defs.{History, ClientInfo, Candidate, ValidCandidate, schd_priority, zero_d}
use gemini.Scheduler.Usage.{beyond_window, usages}

-- `client_info_map`, with one entry for a name.
abbrev pub ClientMap : Type 0 → Type 0
ClientMap D = List (Name × ClientInfo D)

-- The globals of src/scheduler.cpp: the options, the history, the clients and the waiting requests.
pub record Scheduler (D : Type 0) : Type 0 where
  pub base_quota : D
  pub min_quota : D
  pub window_size : D
  pub history_list : List (History D)
  pub client_info_map : ClientMap D
  pub candidates : List (Candidate D)

-- A round selects a candidate, or sleeps for so many milliseconds. A fault is the dereference of a
-- null pointer, `front()` of an empty list, or `std::sort` with a comparison that is no strict weak order on
-- what it sorts.
pub data Round (D : Type 0) : Type 0 where
  selected : Candidate D → Scheduler D → Round D
  sleep : D → Scheduler D → Round D
  fault : Round D

module _ {D : Type 0} where
  unfoldable pub find_client : Name → ClientMap D → Option (ClientInfo D)
  find_client n [] = none
  find_client n ((m, c) ∷ cs) = if name_eq m n then some c else find_client n cs

  -- Whether `find_if` finds a token that this client was given.
  unfoldable pub appears : Name → List (History D) → Bool
  appears n [] = false
  appears n (h ∷ hs) = if name_eq h.name n then true else appears n hs

  -- The element at a position, with the list from which it is erased.
  unfoldable pub take_at : ℕ → List (Candidate D) → Option (Candidate D × List (Candidate D))
  take_at i [] = none
  take_at zero (c ∷ cs) = some (c, cs)
  take_at (suc i) (c ∷ cs) = elim (take_at i cs) [
    | none ↦ none
    | some (a, rest) ↦ some (a, c ∷ rest)
  ]

  -- Every request that waits is of a client in the map.
  abbrev pub AllKnown : Scheduler D → Type 0
  AllKnown s =
      All
        (λ (c : Candidate D).
          (info : ClientInfo D) × (find_client c.name s.client_info_map ≡ some info))
        s.candidates

module _ {D : Type 0} ⦃d : Double D⦄ where
  unfoldable pub valid_candidate : ClientInfo D → D → D → ℕ → Candidate D → ValidCandidate D
  valid_candidate info window_size used i c = record {
    missing = d.sub (d.mul info.min_frac window_size) used;
    remaining = d.sub (d.mul info.max_frac window_size) used;
    usage = used;
    arrived_time = c.arrived_time;
    iter = i;
  }

  abbrev keep_if : Bool → ValidCandidate D → List (ValidCandidate D) → List (ValidCandidate D)
  keep_if b v vs = if b then v ∷ vs else vs

  -- The loop over the candidates, from position `i` on.
  unfoldable pub valid_candidates :
      ClientMap D → D → (Name → D) → ℕ → List (Candidate D) → Option (List (ValidCandidate D))
  unfolding valid_candidate
  valid_candidates clients window_size usage i [] = some []
  valid_candidates clients window_size usage i (c ∷ cs) = elim (find_client c.name clients) [
    | none ↦ none
    | some info ↦ elim (valid_candidates clients window_size usage (i + 1) cs) [
      | none ↦ none
      | some vs ↦
          let v = valid_candidate info window_size (usage c.name) i c in
          some (keep_if (d.lt zero_d v.remaining) v vs)
    ]
  ]

  -- The token goes to the first of the sorted list.
  unfoldable pub give_to : Scheduler D → D → List (ValidCandidate D) → Round D
  give_to s wait [] = sleep wait s
  give_to s wait (v ∷ vs) = elim (take_at v.iter s.candidates) [
    | none ↦ fault
    | some (c, rest) ↦ selected c (record s { candidates = rest })
  ]

  -- The time until the oldest token of the history leaves the window.
  abbrev pub wait_time : List (History D) → D → D
  wait_time [] window_start = zero_d
  wait_time (h ∷ hs) window_start = d.sub h.end window_start

  -- The length of the window, and what of it has passed since the start.
  abbrev pub elapsed_window : Scheduler D → D → D
  elapsed_window s now = if d.lt (d.sub now s.window_size) zero_d then now else s.window_size

  -- The list that is sorted, from the usages of the window that ends now.
  unfoldable pub contenders : Sort → D → Scheduler D → Option (List (ValidCandidate D))
  contenders sorter now s =
      valid_candidates s.client_info_map (elapsed_window s now)
        (usages sorter (d.sub now s.window_size) s.history_list) 0 s.candidates

  unfoldable pub contend : Sort → D → Scheduler D → Round D
  unfolding give_to contenders
  contend sorter now s = elim (contenders sorter now s) [
    | none ↦ fault
    | some vs ↦
        let round =
          give_to s (wait_time s.history_list (d.sub now s.window_size))
            (sorter.sort schd_priority vs) in
        if is_strict_weak schd_priority vs then round else fault
  ]

  -- `history_list.remove_if`
  unfoldable pub prune : D → Scheduler D → Scheduler D
  prune now s = record s {
    history_list = reject (beyond_window (d.sub now s.window_size)) s.history_list;
  }

  -- One round of the loop, at the time `now`.
  unfoldable pub select_round : Sort → D → Scheduler D → Round D
  unfolding contend appears prune
  select_round sorter now s =
      let s' = prune now s in
      elim s.candidates [
        | [] ↦ fault
        | c ∷ cs ↦
            if appears c.name s'.history_list
            then contend sorter now s'
            else selected c (record s' { candidates = cs })
      ]
