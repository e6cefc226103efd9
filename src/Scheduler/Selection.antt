-- ===== src/Scheduler/Selection.antt =====
-- What a round of `select_candidate` does: whom it selects, when it sleeps, and that it cannot fault.

use gemini.Prelude.{
  ℕ, ◌+◌, ◌≡◌, refl, sym, ◌∙◌, ◌≢◌, ◌⊎◌, true, false, inl, inr, none, some, List, [], ◌∷◌, ◌++◌,
  reject, arith, length,
}
use gemini.Double.{Double, IsOrdered}
use gemini.Sort.{Sort, IsSorted, is_strict_weak, is_strict_weak-All}
use gemini.Scheduler.Defs.{ClientInfo, Candidate, ValidCandidate, schd_priority}
use gemini.Scheduler.Usage.{beyond_window}
use gemini.Scheduler.Priority.{IsOff, schd_priority-IsStrictWeak}
use gemini.Scheduler.Select.{
  Scheduler, AllKnown, selected, sleep, fault, find_client, appears, valid_candidate,
  elapsed_window, contenders, prune, select_round,
}
use gemini.Scheduler.Valid.{
  entry, valid_candidates-EachValid, EachValid-All, valid_candidates-ne-none,
}
use gemini.Scheduler.Rounds.{
  window_usage, EachContender, Contender, All-sorted, Unsortable, contend_cases, select_round_cases,
  selected-inj,
}

module _ {D : Type 0} ⦃d : Double D⦄ (sorter : Sort) (now : D) where
  -- A round that selects takes just that candidate out of the queue, keeps the order of the others,
  -- forgets just the tokens that ended before the window, and changes nothing else.
  pub select_round-queue :
      (s t : Scheduler D) (c : Candidate D)
      → select_round sorter now s ≡ selected c t
      → (pre : List (Candidate D)) × (post : List (Candidate D)) × (s.candidates ≡ pre ++ c ∷ post)
        × (t ≡ record s {
          history_list = reject (beyond_window (d.sub now s.window_size)) s.history_list;
          candidates = pre ++ post;
        })
  unfolding prune
  select_round-queue s t c =
      select_round_cases sorter now (λ r. r ≡ selected c t → Taken) s
        (λ c' cs e _ eq.
          let same = selected-inj sorter now eq in ([], cs, rw (← same.0) e, sym same.1))
        (λ c' cs e _.
          contend_cases sorter now (λ r. r ≡ selected c t → Taken) (prune now s)
            (λ vs ws v _ _ _ h eq.
              let same = selected-inj sorter now eq in
              (h.pre, h.post, rw (← same.0) h.split, sym same.1))
            (λ _ eq. cc) (λ _ eq. cc))
        (λ _ eq. cc)
    where
      Taken : Type 0
      Taken =
          (pre : List (Candidate D)) × (post : List (Candidate D)) × (s.candidates
            ≡ pre ++ c ∷ post)
          × (t ≡ record (prune now s) { candidates = pre ++ post })

  -- The candidate stands for its client, whose usage is below the limit, and none of the candidates
  -- below their limits goes before it.
  pub record IsBest (s : Scheduler D) (c : Candidate D) : Type 0 where
    pub place : ℕ
    pub info : ClientInfo D
    pub known : find_client c.name s.client_info_map ≡ some info
    pub below :
        d.lt (window_usage sorter now s c.name) (d.mul info.max_frac (elapsed_window s now)) ≡ true
    pub first :
        EachContender sorter now
          (λ w.
            schd_priority w (
              entry s.client_info_map
                (elapsed_window s now)
                (window_usage sorter now s)
                info
                place
                c)
            ≡ false)
          s

  sleep-inj : {w v : D} {s t : Scheduler D} → sleep w s ≡ sleep v t → s ≡ t
  sleep-inj e = ground arith

  module _ (laws : IsOrdered D) (s : Scheduler D) (vs ws : List (ValidCandidate D)) where
    best :
        (v : ValidCandidate D)
        → contenders sorter now s ≡ some vs
        → is_strict_weak schd_priority vs ≡ true
        → sorter.sort schd_priority vs ≡ v ∷ ws
        → (h : Contender sorter now s v) → EachContender sorter now IsOff s
        → IsBest s h.cand
    unfolding contenders valid_candidate
    best v e test e' h off =
        let order = schd_priority-IsStrictWeak laws in
        let all_off = EachValid-All _ _ _ IsOff 0 s.candidates e off in
        let sorted : IsSorted schd_priority (v ∷ ws) =
          rw e' at (sorter.sort-IsSorted IsOff schd_priority vs order all_off) in
        let self : schd_priority v v ≡ false =
          order.irrefl v ((All-sorted sorter now IsOff vs (v ∷ ws) test e').1 all_off).0 in
        let first =
          valid_candidates-EachValid _ _ _ (λ w. schd_priority w v ≡ false) 0 s.candidates e
            ((All-sorted sorter now (λ w. schd_priority w v ≡ false) vs (v ∷ ws) test e').0
              (self, sorted.0)) in
        record {
          place = 0 + length h.pre;
          info = h.info;
          known = h.known;
          below = sym (laws.sub_pos _ _) ∙ h.below;
          first = rw h.entry_eq at first;
        }

  -- The candidate `c` is taken out of the queue, and the others keep their order; only the tokens that ended before
  -- the window are forgotten.
  abbrev pub IsTaken : Scheduler D → Candidate D → Scheduler D → Type 0
  IsTaken s c t =
      (pre : List (Candidate D)) × (post : List (Candidate D)) × (s.candidates ≡ pre ++ c ∷ post)
      × (t ≡ record (prune now s) { candidates = pre ++ post })

  -- What a round selects that has `front` first in the queue.
  abbrev pub IsChoice :
      Scheduler D → Candidate D → List (Candidate D) → Candidate D → Scheduler D → Type 0
  IsChoice s front cs c t =
      ((appears front.name (prune now s).history_list ≡ false)
        × (c ≡ front)
        × (t ≡ record (prune now s) { candidates = cs }))
      ⊎ ((appears front.name (prune now s).history_list ≡ true)
          × IsBest (prune now s) c
          × IsTaken s c t)

  -- If no contender is just at its request, a round that selects takes the first candidate of the queue where
  -- the client of that one has no token in the window, and else a candidate of the queue that is below its limit
  -- and that no other such candidate goes before. Only that candidate leaves the queue, and only the tokens that
  -- ended before the window leave the history.
  pub select_round-IsBest :
      IsOrdered D
      → (s t : Scheduler D) (c : Candidate D) → EachContender sorter now IsOff (prune now s)
      → select_round sorter now s ≡ selected c t
      → (front : Candidate D) × (cs : List (Candidate D)) × (s.candidates ≡ front ∷ cs)
        × IsChoice s front cs c t
  unfolding prune
  select_round-IsBest laws s t c off =
      select_round_cases sorter now (λ r. r ≡ selected c t → Goal) s
        (λ front cs e unused eq.
          let same = selected-inj sorter now eq in
          (front, cs, e, inl (unused, sym same.0, sym same.1)))
        (λ front cs e used.
          contend_cases sorter now (λ r. r ≡ selected c t → Goal) (prune now s)
            (λ vs ws v e' test e'' h eq.
              let same = selected-inj sorter now eq in
              (
                front,
                cs,
                e,
                inr (
                  used,
                  rw same.0 at (best laws (prune now s) vs ws v e' test e'' h off),
                  (h.pre, h.post, rw (← same.0) h.split, sym same.1),
                ),
              ))
            (λ _ eq. cc) (λ _ eq. cc))
        (λ _ eq. cc)
    where
      Goal : Type 0
      Goal =
          (front : Candidate D) × (cs : List (Candidate D)) × (s.candidates ≡ front ∷ cs)
          × IsChoice s front cs c t

  -- A round sleeps only if every client that waits has reached its limit; the queue stays as it is.
  pub select_round-sleep :
      (s t : Scheduler D) (wait : D)
      → select_round sorter now s ≡ sleep wait t
      → EachContender sorter now (λ _. ⊥) (prune now s) × (t ≡ prune now s)
  unfolding contenders
  select_round-sleep s t wait =
      select_round_cases sorter now (λ r. r ≡ sleep wait t → Goal) s (λ _ _ _ _ eq. cc)
        (λ _ _ _ _.
          contend_cases sorter now (λ r. r ≡ sleep wait t → Goal) (prune now s)
            (λ _ _ _ _ _ _ _ eq. cc)
            (λ e eq. (valid_candidates-EachValid _ _ _ (λ _. ⊥) 0 _ e tt, sym (sleep-inj eq)))
            (λ _ eq. cc))
        (λ _ eq. cc)
    where
      Goal : Type 0
      Goal = EachContender sorter now (λ _. ⊥) (prune now s) × (t ≡ prune now s)

  -- If no contender is just at its request, `std::sort` is given an order.
  EachContender-sortable :
      IsOrdered D → (s : Scheduler D) → EachContender sorter now IsOff s → ¬ Unsortable sorter now s
  unfolding contenders
  EachContender-sortable laws s off (vs, e, test) =
      let all_off = EachValid-All _ _ _ IsOff 0 s.candidates e off in
      let order = schd_priority-IsStrictWeak laws in
      absurd (ground (arith, test, is_strict_weak-All schd_priority vs IsOff order all_off))

  no_fault :
      IsOrdered D
      → (s : Scheduler D) → AllKnown s
      → EachContender sorter now IsOff (prune now s)
      → ¬ ((contenders sorter now (prune now s) ≡ none) ⊎ Unsortable sorter now (prune now s))
  unfolding contenders prune
  no_fault laws s known off (inl e) = valid_candidates-ne-none _ _ _ 0 _ known e
  no_fault laws s known off (inr u) = EachContender-sortable laws (prune now s) off u

  -- If requests of known clients wait, none of them below its limit is just at its request and one of them is
  -- below its limit, a round gives the token.
  pub select_round_gives :
      IsOrdered D
      → (s : Scheduler D) → s.candidates ≢ []
      → AllKnown s
      → EachContender sorter now IsOff (prune now s)
      → ¬ EachContender sorter now (λ _. ⊥) (prune now s)
      → (c : Candidate D) × (t : Scheduler D) × (select_round sorter now s ≡ selected c t)
  unfolding contenders prune
  select_round_gives laws s some_wait known off free =
      select_round_cases sorter now
        (λ r. (c : Candidate D) × (t : Scheduler D) × (r ≡ selected c t)) s
        (λ c cs _ _. (c, _, refl))
        (λ _ _ _ _.
          contend_cases sorter now (λ r. (c : Candidate D) × (t : Scheduler D) × (r ≡ selected c t))
            (prune now s) (λ vs ws v _ _ _ h. (h.cand, _, refl))
            (λ e. absurd (free (valid_candidates-EachValid _ _ _ (λ _. ⊥) 0 _ e tt)))
            (λ e. absurd (no_fault laws s known off e)))
        (λ e. absurd (some_wait e))

  pub select_round-ne-fault :
      IsOrdered D
      → (s : Scheduler D) → s.candidates ≢ []
      → AllKnown s
      → EachContender sorter now IsOff (prune now s)
      → select_round sorter now s ≢ fault
  unfolding contenders prune
  select_round-ne-fault laws s some_wait known off =
      select_round_cases sorter now (λ r. r ≢ fault) s (λ _ _ _ _ eq. cc)
        (λ _ _ _ _.
          contend_cases sorter now (λ r. r ≢ fault) (prune now s) (λ _ _ _ _ _ _ _ eq. cc)
            (λ _ eq. cc) (λ e _. no_fault laws s known off e))
        (λ e _. some_wait e)
