-- ===== src/Scheduler/Safety.antt =====
-- The daemon does not fault: what it looks up is there.
use gemini.Prelude.{
  ℕ, ◌≡◌, ◌≢◌, refl, inl, inr, some, List, [], ◌∷◌, ◌++◌, arith, if◌then◌else◌, Bool-cases,
  Option-cases, Name, name_eq, name_eq_refl, name_eq_sound, All, All-append, All-map, All-middle,
}
use gemini.Double.{Double, IsOrdered}
use gemini.Sort.{Sort}
use gemini.Scheduler.Defs.{ClientInfo, Candidate}
use gemini.Scheduler.Select.{
  ClientMap, Scheduler, Round, selected, sleep, fault, find_client, prune, select_round, AllKnown,
}
use gemini.Scheduler.Priority.{IsOff}
use gemini.Scheduler.Rounds.{EachContender}
use gemini.Scheduler.Selection.{select_round-queue, select_round-sleep, select_round-ne-fault}
use gemini.Scheduler.Requests.{
  put_client, handle_message, dispatch, request_quota, Request, req_quota, req_mem_limit,
  req_mem_update, req_unknown, Message, handle_messages,
}
use gemini.Scheduler.Daemon.{
  Wake, Selecting, done, asleep, faulty, Pass, gives, sleeping, failed, select_candidate, grant,
  schedule_pass,
}

append-cons-ne-nil : {A : Type 0} (xs : List A) (y : A) → xs ++ y ∷ [] ≢ []
append-cons-ne-nil [] y e = cc
append-cons-ne-nil (x ∷ xs) y e = cc

module _ {D : Type 0} where
  abbrev Known : ClientMap D → Name → Type 0
  Known m n = (info : ClientInfo D) × (find_client n m ≡ some info)

  pub find_client-put_client :
      (n k : Name) (c : ClientInfo D) (m : ClientMap D)
      → find_client k (put_client n c m) ≡ (if name_eq n k then some c else find_client k m)
  unfolding find_client put_client
  find_client-put_client n k c [] = refl
  find_client-put_client n k c ((j, e) ∷ m) = ground (
    arith,
    find_client-put_client n k c m,
    name_eq_sound j n,
    name_eq_sound j k,
    name_eq_sound n k,
    name_eq_refl k,
  )

  put_client-Known :
      (n k : Name) (c : ClientInfo D) (m : ClientMap D) → Known m k → Known (put_client n c m) k
  put_client-Known n k c m (info, e) = elim (Bool-cases (name_eq n k)) [
    | inl same ↦ (c, rw (find_client-put_client n k c m, same))
    | inr other ↦ (info, rw (find_client-put_client n k c m, other) e)
  ]

  put_client_self : (n : Name) (c : ClientInfo D) (m : ClientMap D) → Known (put_client n c m) n
  put_client_self n c m = (c, rw (find_client-put_client n n c m, name_eq_refl n))

module _ {D : Type 0} ⦃d : Double D⦄ where
  -- Putting a client into the map forgets none.
  All-Known :
      (n : Name) (c : ClientInfo D) (m : ClientMap D) (cs : List (Candidate D))
      → All (λ (a : Candidate D). Known m a.name) cs
      → All (λ (a : Candidate D). Known (put_client n c m) a.name) cs
  All-Known n c m cs =
      All-map (λ (a : Candidate D). Known m a.name)
        (λ (a : Candidate D). Known (put_client n c m) a.name) (λ a. put_client-Known n a.name c m)
        cs

  -- The queue of a state that the daemon can meet: requests wait, all of clients in the map.
  abbrev pub IsReady : Scheduler D → Type 0
  IsReady s = AllKnown s × (s.candidates ≢ [])

  request_quota-IsReady :
      (socket : ℕ) (name : Name) (req_id : ℕ) (overuse burst now arrived : D) (info : ClientInfo D)
      (s : Scheduler D)
      → AllKnown s
      → IsReady (request_quota socket name req_id overuse burst now arrived info s)
  unfolding request_quota
  request_quota-IsReady socket name req_id overuse burst now arrived info s h = (
    All-append _ s.candidates _ (All-Known name _ s.client_info_map s.candidates h)
        (put_client_self name _ s.client_info_map, tt),
    append-cons-ne-nil s.candidates _,
  )

  -- Handling a message keeps the clients of all requests known, and takes no request away.
  pub handle_message-IsReady :
      (socket : ℕ) (name : Name) (req_id : ℕ) (req : Request D) (now arrived : D) (s : Scheduler D)
      → AllKnown s
      → let t = (handle_message socket name req_id req now arrived s).0 in
        AllKnown t × (s.candidates ≢ [] → t.candidates ≢ [])
  unfolding handle_message
  handle_message-IsReady socket name req_id req now arrived s h =
      elim (Option-cases (find_client name s.client_info_map)) [
        | inl unknown ↦ rw (unknown, handle_message) (h, λ some_wait. some_wait)
        | inr (info, known) ↦ rw (known, handle_message) (dispatched info req)
      ]
    where
      After : Scheduler D → Type 0
      After t = AllKnown t × (s.candidates ≢ [] → t.candidates ≢ [])

      dispatched :
          (info : ClientInfo D) (r : Request D)
          → After (dispatch socket name req_id now arrived info s r).0
      dispatched info (req_quota overuse burst) =
          let (known, some_wait) =
            request_quota-IsReady socket name req_id overuse burst now arrived info s h in
          (known, λ _. some_wait)
      dispatched info req_mem_limit = (h, λ some_wait. some_wait)
      dispatched info req_mem_update = (h, λ some_wait. some_wait)
      dispatched info req_unknown = (h, λ some_wait. some_wait)

  handle_messages-IsReady :
      (ms : List (Message D)) (s : Scheduler D) → IsReady s → IsReady (handle_messages s ms)
  unfolding handle_messages
  handle_messages-IsReady [] s h = h
  handle_messages-IsReady (m ∷ ms) s (known, some_wait) =
      let (known', keeps) =
        handle_message-IsReady m.socket m.sender m.req_id m.request m.now m.arrived s known in
      handle_messages-IsReady ms _ (known', keeps some_wait)

  -- What a selection may come to: no fault, and a queue of known clients.
  abbrev SelectingIsSound : Selecting D → Type 0
  SelectingIsSound (done c t ws) = AllKnown t × Known t.client_info_map c.name
  SelectingIsSound (asleep t) = IsReady t
  SelectingIsSound faulty = ⊥

  abbrev RoundIsSound : Round D → Type 0
  RoundIsSound (selected c t) = AllKnown t × Known t.client_info_map c.name
  RoundIsSound (sleep wait t) = IsReady t
  RoundIsSound fault = ⊥

  -- At each round of a selection, as far as it comes, no contender is just at its request.
  unfoldable pub IsOrderly : Sort → D → Scheduler D → List (Wake D) → Type 0
  IsOrderly sorter now s [] = EachContender sorter now IsOff (prune now s)
  IsOrderly sorter now s (w ∷ ws) =
      EachContender sorter now IsOff (prune now s)
      × ((wait : D) (t : Scheduler D)
          → select_round sorter now s ≡ sleep wait t
          → IsOrderly sorter w.now (handle_messages t w.messages) ws)

  select_round-IsSound :
      IsOrdered D
      → (sorter : Sort) (now : D) (s : Scheduler D) → IsReady s
      → EachContender sorter now IsOff (prune now s)
      → RoundIsSound (select_round sorter now s)
  unfolding prune
  select_round-IsSound laws sorter now s (known, some_wait) off =
      by_round (select_round sorter now s) refl
    where
      by_round : (r : Round D) → select_round sorter now s ≡ r → RoundIsSound r
      by_round (selected c t) e =
          let (pre, post, split, after) = select_round-queue sorter now s t c e in
          let (ours, others) =
            All-middle (λ (a : Candidate D). Known s.client_info_map a.name) pre post c
              (rw split at known) in
          rw after (others, ours)
      by_round (sleep wait t) e = rw (select_round-sleep sorter now s t wait e).1 (known, some_wait)
      by_round fault e = absurd (select_round-ne-fault sorter now laws s some_wait known off e)

  select_candidate-IsSound :
      IsOrdered D
      → (sorter : Sort) (now : D) (s : Scheduler D) (ws : List (Wake D)) → IsReady s
      → IsOrderly sorter now s ws
      → SelectingIsSound (select_candidate sorter now s ws)
  unfolding select_candidate IsOrderly
  select_candidate-IsSound laws sorter now s [] h off =
      by_round (select_round sorter now s) (select_round-IsSound laws sorter now s h off)
    where
      by_round :
          (r : Round D)
          → RoundIsSound r
          → SelectingIsSound
              (elim r [ selected c t ↦ done c t [] | sleep wait t ↦ asleep t | fault ↦ faulty ])
      by_round (selected c t) sound = sound
      by_round (sleep wait t) sound = sound
      by_round fault sound = sound
  select_candidate-IsSound laws sorter now s (w ∷ ws) h (off, later) =
      by_round (select_round sorter now s) (select_round-IsSound laws sorter now s h off)
        (λ wait t e ready.
          select_candidate-IsSound laws sorter w.now (handle_messages t w.messages) ws
            (handle_messages-IsReady w.messages t ready) (later wait t e))
    where
      by_round :
          (r : Round D)
          → RoundIsSound r
          → ((wait : D) (t : Scheduler D)
              → r ≡ sleep wait t
              → IsReady t
              → SelectingIsSound (select_candidate sorter w.now (handle_messages t w.messages) ws))
          → SelectingIsSound (elim r [
            | selected c t ↦ done c t (w ∷ ws)
            | sleep wait t ↦ select_candidate sorter w.now (handle_messages t w.messages) ws
            | fault ↦ faulty
          ])
      by_round (selected c t) sound again = sound
      by_round (sleep wait t) sound again = again wait t refl sound
      by_round fault sound again = sound

  -- A pass that gives the quota or sleeps leaves requests of known clients only.
  abbrev pub PassIsSound : Pass D → Type 0
  PassIsSound (gives c quota t ws) = AllKnown t
  PassIsSound (sleeping t) = IsReady t
  PassIsSound failed = ⊥

  grant-IsSound :
      (start : D) (c : Candidate D) (s : Scheduler D) (ws : List (Wake D))
      → AllKnown s
      → Known s.client_info_map c.name
      → PassIsSound (grant start c s ws)
  unfolding grant
  grant-IsSound start c s ws known (info, e) =
      rw (e, grant) (All-Known c.name _ s.client_info_map s.candidates known)

  -- A pass of the daemon over requests of known clients never fails, whichever messages come and whenever it
  -- wakes up, as long as at none of its rounds a client below its limit is just at its request; it gives a quota or
  -- is still asleep, and every request that waits afterwards is of a known client.
  pub schedule_pass-IsSound :
      IsOrdered D
      → (sorter : Sort) (now start : D) (s : Scheduler D) (ws : List (Wake D)) → IsReady s
      → IsOrderly sorter now s ws
      → PassIsSound (schedule_pass sorter now start s ws)
  unfolding schedule_pass
  schedule_pass-IsSound laws sorter now start s ws h orderly =
      by_selecting (select_candidate sorter now s ws)
        (select_candidate-IsSound laws sorter now s ws h orderly)
    where
      by_selecting :
          (r : Selecting D)
          → SelectingIsSound r
          → PassIsSound (elim r [
            | done c t rest ↦ grant start c t rest
            | asleep t ↦ sleeping t
            | faulty ↦ failed
          ])
      by_selecting (done c t rest) (known, ours) = grant-IsSound start c t rest known ours
      by_selecting (asleep t) ready = ready
      by_selecting faulty sound = sound
