-- ===== src/Scheduler/Account.antt =====
-- What becomes of the requests in the selection of a pass.
use gemini.Prelude.{◌+◌, ◌≡◌, refl, ap, ◌∙◌, Bool, List, [], ◌∷◌, ◌++◌, arith}
use gemini.Counts.{count, count-append}
use gemini.Double.{Double}
use gemini.Sort.{Sort}
use gemini.Scheduler.Defs.{Candidate}
use gemini.Scheduler.Select.{Scheduler, Round, selected, sleep, fault, select_round, prune}
use gemini.Scheduler.Selection.{select_round-queue, select_round-sleep}
use gemini.Scheduler.Requests.{Message, handle_messages}
use gemini.Scheduler.Daemon.{Wake, Selecting, done, asleep, faulty, select_candidate}
use gemini.Scheduler.Queue.{knows, requests, requests-append, Queued, handle_messages-Queued}
use gemini.Scheduler.Loop.{received}

module _ {D : Type 0} ⦃d : Double D⦄ where
  -- The requests that waited or came are those that were served or wait still.
  pub record IsConserved (s : Scheduler D) (ms : List (Message D)) (cs : List (Candidate D))
      (t : Scheduler D) : Type 0 where
    pub served :
        (p : Candidate D → Bool)
        → count p s.candidates + count p (requests (knows s.client_info_map) ms)
          ≡ count p cs + count p t.candidates
    pub same : knows t.client_info_map ≡ knows s.client_info_map

  pub IsConserved-trans :
      (s t u : Scheduler D) (ms ns : List (Message D)) (cs ds : List (Candidate D))
      → IsConserved s ms cs t
      → IsConserved t ns ds u
      → IsConserved s (ms ++ ns) (cs ++ ds) u
  IsConserved-trans s t u ms ns cs ds h k = record {
    served = λ p.
        let known = knows s.client_info_map in
        omega (
          arith,
          h.served p,
          k.served p,
          ap (λ f. count p (requests f ns)) h.same,
          ap (count p) (requests-append known ms ns),
          count-append p (requests known ms) (requests known ns),
          count-append p cs ds,
        );
    same = k.same ∙ h.same;
  }

  Queued-IsConserved :
      (s t : Scheduler D) (ms : List (Message D)) → Queued s ms t → IsConserved s ms [] t
  Queued-IsConserved s t ms (queue, same) = record {
    served = λ p. omega (
      arith,
      ap (count p) queue,
      count-append p s.candidates (requests (knows s.client_info_map) ms),
    );
    same = same;
  }

  pub handle_messages-IsConserved :
      (s : Scheduler D) (ms : List (Message D)) → IsConserved s ms [] (handle_messages s ms)
  handle_messages-IsConserved s ms =
      Queued-IsConserved s (handle_messages s ms) ms (handle_messages-Queued ms s)

  pub select_round-IsConserved :
      (sorter : Sort) (now : D) (s t : Scheduler D) (c : Candidate D)
      → select_round sorter now s ≡ selected c t
      → IsConserved s [] (c ∷ []) t
  unfolding requests
  select_round-IsConserved sorter now s t c e =
      let (pre, post, split, after) = select_round-queue sorter now s t c e in
      rw after (record {
        served = λ p.
            omega
              (arith, ap (count p) split, count-append p pre (c ∷ post), count-append p pre post);
        same = refl;
      })

  -- What a part of a pass does that uses up the front of the wake-ups.
  unfoldable pub Used :
      Scheduler D → List (Wake D) → List (Candidate D) → Scheduler D → List (Wake D) → Type 0
  Used s ws cs t rest =
      (used : List (Wake D)) × (ws ≡ used ++ rest) × IsConserved s (received used) cs t

  pub Used-after :
      (s t u : Scheduler D) (w : Wake D) (ws rest : List (Wake D)) (cs : List (Candidate D))
      → IsConserved s w.messages [] t
      → Used t ws cs u rest
      → Used s (w ∷ ws) cs u rest
  unfolding received Used
  Used-after s t u w ws rest cs h (used, split, k) = (
    w ∷ used,
    ap (λ l. w ∷ l) split,
    IsConserved-trans s t u w.messages (received used) [] cs h k,
  )

  unfoldable pub Done : Scheduler D → List (Wake D) → Selecting D → Type 0
  Done s ws (done c t rest) = Used s ws (c ∷ []) t rest
  Done s ws (asleep t) = Unit
  Done s ws faulty = Unit

  Done-after :
      (s t : Scheduler D) (w : Wake D) (ws : List (Wake D)) (r : Selecting D)
      → IsConserved s w.messages [] t
      → Done t ws r
      → Done s (w ∷ ws) r
  unfolding Done
  Done-after s t w ws (done c u rest) h k = Used-after s t u w ws rest (c ∷ []) h k
  Done-after s t w ws (asleep u) h k = tt
  Done-after s t w ws faulty h k = tt

  pub select_candidate-Done :
      (sorter : Sort) (now : D) (s : Scheduler D) (ws : List (Wake D))
      → Done s ws (select_candidate sorter now s ws)
  unfolding select_candidate Done Used received prune
  select_candidate-Done sorter now s [] = by_round (select_round sorter now s) refl
    where
      by_round :
          (r : Round D)
          → select_round sorter now s ≡ r
          → Done s []
              (elim r [ selected c t ↦ done c t [] | sleep wait t ↦ asleep t | fault ↦ faulty ])
      by_round (selected c t) e = ([], refl, select_round-IsConserved sorter now s t c e)
      by_round (sleep wait t) e = tt
      by_round fault e = tt
  select_candidate-Done sorter now s (w ∷ ws) =
      by_round (select_round sorter now s) refl
        (λ t. select_candidate-Done sorter w.now (handle_messages t w.messages) ws)
    where
      slept :
          (t : Scheduler D) (wait : D)
          → select_round sorter now s ≡ sleep wait t
          → IsConserved s w.messages [] (handle_messages t w.messages)
      slept t wait e =
          let h = handle_messages-IsConserved (prune now s) w.messages in
          rw (select_round-sleep sorter now s t wait e).1
            (record { served = h.served; same = h.same })

      by_round :
          (r : Round D)
          → select_round sorter now s ≡ r
          → ((t : Scheduler D)
              → Done
                  (handle_messages t w.messages)
                  ws
                  (select_candidate sorter w.now (handle_messages t w.messages) ws))
          → Done s (w ∷ ws) (elim r [
            | selected c t ↦ done c t (w ∷ ws)
            | sleep wait t ↦ select_candidate sorter w.now (handle_messages t w.messages) ws
            | fault ↦ faulty
          ])
      by_round (selected c t) e again = ([], refl, select_round-IsConserved sorter now s t c e)
      by_round (sleep wait t) e again =
          Done-after s (handle_messages t w.messages) w ws _ (slept t wait e) (again t)
      by_round fault e again = tt
