-- ===== src/Scheduler/Rounds.antt =====
-- The ways that a round of `select_candidate` goes.
use native.Mathlib.Nat.{zero-add}
use mathlib.Core.List.Permᴰ
use gemini.Prelude.{
  ◌≡◌, refl, ap, ◌∙◌, ◌⊎◌, ◌↔◌, true, false, inl, inr, none, some, List, [], ◌∷◌, ◌++◌, arith,
  Bool-cases, Option-cases, Name, length, All,
}
use gemini.Double.{Double}
use gemini.Sort.{Sort, IsIn, All-IsIn, All-perm, is_strict_weak, is_strict_weak-IsIn}
use gemini.Scheduler.Defs.{Candidate, ValidCandidate, schd_priority}
use gemini.Scheduler.Usage.{usages}
use gemini.Scheduler.Select.{
  Scheduler, Round, selected, sleep, fault, appears, take_at, valid_candidate, give_to, wait_time,
  elapsed_window, contenders, contend, prune, select_round,
}
use gemini.Scheduler.Valid.{take_at-length, EachValid, IsEntry, valid_candidates-IsEntry}

module _ {D : Type 0} ⦃d : Double D⦄ (sorter : Sort) (now : D) where
  -- The usages that a round computes, and the length of its window.
  abbrev pub window_usage : Scheduler D → Name → D
  window_usage s = usages sorter (d.sub now s.window_size) s.history_list

  -- `Q` holds of what the round takes each candidate below its limit for.
  abbrev pub EachContender : (ValidCandidate D → Type 0) → Scheduler D → Type 0
  EachContender Q s =
      EachValid s.client_info_map (elapsed_window s now) (window_usage s) Q 0 s.candidates

  abbrev pub Contender : Scheduler D → ValidCandidate D → Type 0
  Contender s = IsEntry s.client_info_map (elapsed_window s now) (window_usage s) 0 s.candidates

  take_at-iter :
      (s : Scheduler D) (v : ValidCandidate D) (h : Contender s v)
      → take_at v.iter s.candidates ≡ some (h.cand, h.pre ++ h.post)
  unfolding valid_candidate
  take_at-iter s v h =
      let place : v.iter ≡ length h.pre =
        ap (λ (w : ValidCandidate D). w.iter) h.entry_eq ∙ zero-add _ in
      rw (place, h.split) (take_at-length h.pre h.post h.cand)

  -- The sorted list holds what the unsorted one does.
  pub All-sorted :
      (Q : ValidCandidate D → Type 0) (vs ws : List (ValidCandidate D))
      → is_strict_weak schd_priority vs ≡ true
      → sorter.sort schd_priority vs ≡ ws
      → All Q ws ↔ All Q vs
  All-sorted Q vs ws test e =
      let order = is_strict_weak-IsIn schd_priority vs test in
      let perm = sorter.sort-perm (λ v. IsIn v vs) schd_priority vs order (All-IsIn vs) in
      (λ h. All-perm Q (Permᴰ.symm perm) (rw e h), λ h. rw e at (All-perm Q perm h))

  nil_of_none : (vs : List (ValidCandidate D)) → All (λ _. ⊥) vs → vs ≡ []
  nil_of_none [] h = refl
  nil_of_none (v ∷ vs) (h, hs) = absurd h

  -- The candidates of a round, where the comparison is no order for `std::sort`.
  abbrev pub Unsortable : Scheduler D → Type 0
  Unsortable s =
      (vs : List (ValidCandidate D)) × (contenders sorter now s ≡ some vs)
      × (is_strict_weak schd_priority vs ≡ false)

  pub contend_cases :
      (P : Round D → Type 0) (s : Scheduler D)
      → ((vs ws : List (ValidCandidate D)) (v : ValidCandidate D)
          → contenders sorter now s ≡ some vs
          → is_strict_weak schd_priority vs ≡ true
          → sorter.sort schd_priority vs ≡ v ∷ ws
          → (h : Contender s v) → P (selected h.cand (record s { candidates = h.pre ++ h.post })))
      → (contenders sorter now s ≡ some []
          → P (sleep (wait_time s.history_list (d.sub now s.window_size)) s))
      → ((contenders sorter now s ≡ none) ⊎ Unsortable s → P fault)
      → P (contend sorter now s)
  unfolding contend
  contend_cases P s on_selected on_sleep on_fault = elim (Option-cases (contenders sorter now s)) [
    | inl e ↦ rw (e, contend) (on_fault (inl e))
    | inr (vs, e) ↦ elim (Bool-cases (is_strict_weak schd_priority vs)) [
      | inl test ↦ rw (e, contend, test) (by_head vs e test (sorter.sort schd_priority vs) refl)
      | inr test ↦ rw (e, contend, test) (on_fault (inr (vs, e, test)))
    ]
  ]
    where
      wait : D
      wait = wait_time s.history_list (d.sub now s.window_size)

      by_head :
          (vs : List (ValidCandidate D))
          → contenders sorter now s ≡ some vs
          → is_strict_weak schd_priority vs ≡ true
          → (ws : List (ValidCandidate D)) → sorter.sort schd_priority vs ≡ ws
          → P (give_to s wait ws)
      by_head vs e test [] e' =
          on_sleep (rw (← nil_of_none vs ((All-sorted (λ _. ⊥) vs [] test e').0 tt)) e)
      by_head vs e test (v ∷ ws) e' =
          let entries = valid_candidates-IsEntry _ _ _ 0 s.candidates e in
          let h : Contender s v = ((All-sorted (Contender s) vs (v ∷ ws) test e').1 entries).0 in
          rw (take_at-iter s v h, give_to) (on_selected vs ws v e test e' h)

  -- The loop ends at once for a client that has no token in the window; the others contend.
  pub select_round_cases :
      (P : Round D → Type 0) (s : Scheduler D)
      → ((c : Candidate D) (cs : List (Candidate D))
          → s.candidates ≡ c ∷ cs
          → appears c.name (prune now s).history_list ≡ false
          → P (selected c (record (prune now s) { candidates = cs })))
      → ((c : Candidate D) (cs : List (Candidate D))
          → s.candidates ≡ c ∷ cs
          → appears c.name (prune now s).history_list ≡ true
          → P (contend sorter now (prune now s)))
      → (s.candidates ≡ [] → P fault)
      → P (select_round sorter now s)
  unfolding select_round
  select_round_cases P s on_quick on_contend on_empty = by_front s.candidates refl
    where
      by_front : (cs : List (Candidate D)) → s.candidates ≡ cs → P (select_round sorter now s)
      by_front [] e = rw (e, select_round) (on_empty e)
      by_front (c ∷ cs) e = elim (Bool-cases (appears c.name (prune now s).history_list)) [
        | inl used ↦ rw (e, select_round, used) (on_contend c cs e used)
        | inr unused ↦ rw (e, select_round, unused) (on_quick c cs e unused)
      ]

  pub selected-inj :
      {a b : Candidate D} {s t : Scheduler D} → selected a s ≡ selected b t → (a ≡ b) × (s ≡ t)
  selected-inj e = ground arith
