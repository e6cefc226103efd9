-- ===== src/Scheduler/Conservation.antt =====
-- What becomes of the requests over the passes of the daemon.
use mathlib.Core.List.{append_assoc, append-nil}
use gemini.Prelude.{
  ◌≡◌, refl, sym, ◌∙◌, Option, none, some, List, [], ◌∷◌, ◌++◌, if◌then◌else◌, arith, Name,
  Option-cases, if_cases, inl, inr,
}
use gemini.Double.{Double}
use gemini.Sort.{Sort}
use gemini.Scheduler.Defs.{Candidate}
use gemini.Scheduler.Select.{Scheduler, find_client}
use gemini.Scheduler.Requests.{Message, handle_messages}
use gemini.Scheduler.Daemon.{
  Wake, Selecting, done, asleep, faulty, Pass, gives, sleeping, failed, await_return, waits_again,
  select_candidate, grant, schedule_pass,
}
use gemini.Scheduler.Queue.{requests, knows-put_client}
use gemini.Scheduler.Loop.{received, Daemon, stop, arrival, pass}
use gemini.Scheduler.Account.{
  IsConserved, IsConserved-trans, handle_messages-IsConserved, Used, Used-after, Done,
  select_candidate-Done,
}

module _ {D : Type 0} ⦃d : Double D⦄ where
  Given : Scheduler D → List (Wake D) → Pass D → Type 0
  Given s ws (gives c quota t rest) = Used s ws (c ∷ []) t rest
  Given s ws (sleeping t) = Unit
  Given s ws failed = Unit

  grant-Given :
      (start : D) (c : Candidate D) (s t : Scheduler D) (ws rest : List (Wake D))
      → Used s ws (c ∷ []) t rest
      → Given s ws (grant start c t rest)
  unfolding grant Given Used
  grant-Given start c s t ws rest (used, split, h) =
      elim (Option-cases (find_client c.name t.client_info_map)) [
        | inl unknown ↦ rw (unknown, grant) tt
        | inr (info, known) ↦
            rw (known, grant)
              (
                used,
                split,
                record {
                  served = h.served;
                  same = knows-put_client c.name info _ t.client_info_map known ∙ h.same;
                },
              )
      ]

  schedule_pass-Given :
      (sorter : Sort) (now start : D) (s : Scheduler D) (ws : List (Wake D))
      → Given s ws (schedule_pass sorter now start s ws)
  unfolding schedule_pass Given Done
  schedule_pass-Given sorter now start s ws =
      by_selecting (select_candidate sorter now s ws) (select_candidate-Done sorter now s ws)
    where
      by_selecting :
          (r : Selecting D)
          → Done s ws r
          → Given s ws (elim r [
            | done c t rest ↦ grant start c t rest
            | asleep t ↦ sleeping t
            | faulty ↦ failed
          ])
      by_selecting (done c t rest) h = grant-Given start c s t ws rest h
      by_selecting (asleep t) h = tt
      by_selecting faulty h = tt

  -- What a pass that gives the token has used up.
  pub gives-Used :
      (sorter : Sort) (now start : D) (s t : Scheduler D) (ws rest : List (Wake D))
      (c : Candidate D) (quota : D)
      → schedule_pass sorter now start s ws ≡ gives c quota t rest
      → (used : List (Wake D)) × (ws ≡ used ++ rest) × IsConserved s (received used) (c ∷ []) t
  unfolding Given Used
  gives-Used sorter now start s t ws rest c quota e =
      rw e at (schedule_pass-Given sorter now start s ws)

  Awaited : Scheduler D → List (Wake D) → Option (Scheduler D × List (Wake D)) → Type 0
  Awaited s ws none = Unit
  Awaited s ws (some (t, rest)) = Used s ws [] t rest

  await_return-Awaited :
      (n : Name) (ws : List (Wake D)) (s : Scheduler D) → Awaited s ws (await_return n ws s)
  unfolding await_return Awaited Used received
  await_return-Awaited n [] s = tt
  await_return-Awaited n (w ∷ ws) s =
      if_cases (Awaited s (w ∷ ws)) w.timed_out (some (s', ws))
        (if waits_again n s'.candidates then some (s', ws) else await_return n ws s') (λ _. stops)
        (λ _.
          if_cases (Awaited s (w ∷ ws)) (waits_again n s'.candidates) (some (s', ws))
            (await_return n ws s') (λ _. stops)
            (λ _. after (await_return n ws s') (await_return-Awaited n ws s')))
    where
      s' : Scheduler D
      s' = handle_messages s w.messages

      stops : Used s (w ∷ ws) [] s' ws
      stops = (w ∷ [], refl, rw (append-nil w.messages) (handle_messages-IsConserved s w.messages))

      after : (r : Option (Scheduler D × List (Wake D))) → Awaited s' ws r → Awaited s (w ∷ ws) r
      after none h = tt
      after (some (t, rest)) h =
          Used-after s s' t w ws rest [] (handle_messages-IsConserved s w.messages) h

  received-append : (ws vs : List (Wake D)) → received (ws ++ vs) ≡ received ws ++ received vs
  unfolding received
  received-append [] vs = refl
  received-append (w ∷ ws) vs =
      rw (received-append ws vs) (sym (append_assoc w.messages (received ws) (received vs)))

  pass-IsConserved :
      (sorter : Sort) (now start : D) (s s' s'' : Scheduler D) (ws rest : List (Wake D))
      (c : Candidate D) (quota : D)
      → schedule_pass sorter now start s ws ≡ gives c quota s' rest
      → await_return c.name rest s' ≡ some (s'', [])
      → IsConserved s (received ws) (c ∷ []) s''
  unfolding Given Awaited Used
  pass-IsConserved sorter now start s s' s'' ws rest c quota e e' =
      let (used, split, h) = gives-Used sorter now start s s' ws rest c quota e in
      let (used', split', h') = rw e' at (await_return-Awaited c.name rest s') in
      rw (split, split', append-nil used', received-append used used')
        (IsConserved-trans s s' s'' (received used) (received used') (c ∷ []) [] h h')

  -- Over any run of the daemon no request is lost or served twice: of the requests that waited at its
  -- start and those of known clients that came, each was given the token or waits still, so many times as
  -- it came, and nothing else was or does; and the clients that are known stay the same. A pass in which
  -- `std::sort` is given no strict weak order is undefined, and no part of a run.
  pub Daemon-IsConserved :
      {sorter : Sort} {s t : Scheduler D} {ms : List (Message D)} {cs : List (Candidate D)}
      → Daemon sorter s ms cs t
      → IsConserved s ms cs t
  unfolding requests
  Daemon-IsConserved {s = s} stop = record { served = λ p. omega arith; same = refl }
  Daemon-IsConserved {s = s} {t = t} (arrival {ms = ms} {cs = cs} m run) =
      IsConserved-trans s (handle_messages s (m ∷ [])) t (m ∷ []) ms [] cs
        (handle_messages-IsConserved s (m ∷ [])) (Daemon-IsConserved run)
  Daemon-IsConserved {sorter = sorter} {s = s} {t = t}
        (pass {ms = ms} {cs = cs} now start ws rest c quota s' s'' waiting e e' run) =
      IsConserved-trans s s'' t (received ws) ms (c ∷ []) cs
        (pass-IsConserved sorter now start s s' s'' ws rest c quota e e') (Daemon-IsConserved run)
