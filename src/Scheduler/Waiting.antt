-- ===== src/Scheduler/Waiting.antt =====
-- The wait for the token, at the end of a pass.
use gemini.Prelude.{
  ◌≡◌, refl, sym, ap, ◌∙◌, true, false, Option, none, some, List, [], ◌∷◌, ◌++◌, ◌||◌, ◌⊎◌, arith,
  Name, if_cases, inl, inr, All,
}
use mathlib.Core.List.{append_assoc}
use gemini.Double.{Double}
use gemini.Scheduler.Defs.{Candidate}
use gemini.Scheduler.Select.{Scheduler}
use gemini.Scheduler.Requests.{Message, handle_messages}
use gemini.Scheduler.Daemon.{Wake, await_return, waits_again}
use gemini.Scheduler.Queue.{knows, requests, handle_messages-Queued}
use gemini.Scheduler.Loop.{received}

module _ {D : Type 0} where
  waits_again-append :
      (n : Name) (cs ds : List (Candidate D))
      → waits_again n (cs ++ ds) ≡ (waits_again n cs || waits_again n ds)
  unfolding waits_again
  waits_again-append n [] ds = refl
  waits_again-append n (c ∷ cs) ds = ground (arith, waits_again-append n cs ds)

module _ {D : Type 0} ⦃d : Double D⦄ where
  handle_messages-append :
      (ms ns : List (Message D)) (s : Scheduler D)
      → handle_messages s (ms ++ ns) ≡ handle_messages (handle_messages s ms) ns
  unfolding handle_messages
  handle_messages-append [] ns s = refl
  handle_messages-append (m ∷ ms) ns s = handle_messages-append ms ns _

  -- How the wait ended: with the wake-up `last`, behind those of `before`.
  pub record Ended (n : Name) (s : Scheduler D) (ws : List (Wake D)) (t : Scheduler D)
      (rest : List (Wake D)) : Type 0 where
    pub before : List (Wake D)
    pub last : Wake D
    pub split : ws ≡ before ++ last ∷ rest
    pub early : All (λ (w : Wake D). w.timed_out ≡ false) before
    pub handled : t ≡ handle_messages s (received before ++ last.messages)
    pub why : (last.timed_out ≡ true) ⊎ (waits_again n t.candidates ≡ true)

  IsEnd : Name → Scheduler D → List (Wake D) → Option (Scheduler D × List (Wake D)) → Type 0
  IsEnd n s ws none = Unit
  IsEnd n s ws (some (t, rest)) = Ended n s ws t rest

  later :
      (n : Name) (w : Wake D) (ws : List (Wake D)) (s : Scheduler D)
      (r : Option (Scheduler D × List (Wake D)))
      → w.timed_out ≡ false
      → IsEnd n (handle_messages s w.messages) ws r
      → IsEnd n s (w ∷ ws) r
  unfolding IsEnd received
  later n w ws s none signalled h = tt
  later n w ws s (some (t, rest)) signalled h = record {
    before = w ∷ h.before;
    last = h.last;
    split = ap (λ l. w ∷ l) h.split;
    early = (signalled, h.early);
    handled =
        h.handled
        ∙ (sym (handle_messages-append w.messages (received h.before ++ h.last.messages) s)
            ∙ ap (handle_messages s)
                (sym (append_assoc w.messages (received h.before) h.last.messages)));
    why = h.why;
  }

  await_return-IsEnd :
      (n : Name) (ws : List (Wake D)) (s : Scheduler D) → IsEnd n s ws (await_return n ws s)
  unfolding await_return IsEnd received
  await_return-IsEnd n [] s = tt
  await_return-IsEnd n (w ∷ ws) s =
      if_cases (IsEnd n s (w ∷ ws)) w.timed_out (some (s', ws)) _ (λ late. stops (inl late))
        (λ signalled.
          if_cases (IsEnd n s (w ∷ ws)) (waits_again n s'.candidates) (some (s', ws))
            (await_return n ws s') (λ again. stops (inr again))
            (λ _. later n w ws s (await_return n ws s') signalled (await_return-IsEnd n ws s')))
    where
      s' : Scheduler D
      s' = handle_messages s w.messages

      stops : (w.timed_out ≡ true) ⊎ (waits_again n s'.candidates ≡ true) → Ended n s (w ∷ ws) s' ws
      stops why = record {
        before = [];
        last = w;
        split = refl;
        early = tt;
        handled = refl;
        why = why;
      }

  -- If the client that was given the token has no further request in the queue, the wait ends only at the
  -- deadline or after a request of that client was handled meanwhile, and no later than at the deadline.
  pub await_return-returned :
      (n : Name) (ws rest : List (Wake D)) (s t : Scheduler D)
      → waits_again n s.candidates ≡ false
      → await_return n ws s ≡ some (t, rest)
      → (end : Ended n s ws t rest) × ((end.last.timed_out ≡ true)
          ⊎ (waits_again n
                (requests (knows s.client_info_map) (received end.before ++ end.last.messages))
              ≡ true))
  unfolding IsEnd
  await_return-returned n ws rest s t alone e =
      let end = rw e at (await_return-IsEnd n ws s) in (end, returned end end.why)
    where
      returned :
          (end : Ended n s ws t rest)
          → (end.last.timed_out ≡ true) ⊎ (waits_again n t.candidates ≡ true)
          → (end.last.timed_out ≡ true)
            ⊎ (waits_again n
                  (requests (knows s.client_info_map) (received end.before ++ end.last.messages))
                ≡ true)
      returned end (inl late) = inl late
      returned end (inr again) =
          let ms = received end.before ++ end.last.messages in
          inr (
            ground (
              arith,
              again,
              alone,
              ap (λ (u : Scheduler D). waits_again n u.candidates) end.handled,
              ap (waits_again n) (handle_messages-Queued ms s).0,
              waits_again-append n s.candidates (requests (knows s.client_info_map) ms),
            ))

  -- Whatever is handled and however often the daemon is woken, the wait is over when the deadline passes: a
  -- wake-up by the timeout ends it, if no earlier one has.
  pub await_return-deadline :
      (n : Name) (pre post : List (Wake D)) (w : Wake D) (s : Scheduler D)
      → w.timed_out ≡ true
      → (t : Scheduler D) × (between : List (Wake D)) × (await_return n (pre ++ w ∷ post) s
          ≡ some (t, between ++ post))
  unfolding await_return
  await_return-deadline n [] post w s late = (handle_messages s w.messages, [], rw late refl)
  await_return-deadline n (v ∷ pre) post w s late =
      if_cases Over v.timed_out (some (s', pre ++ w ∷ post)) _ (λ _. stops)
        (λ _.
          if_cases Over (waits_again n s'.candidates) (some (s', pre ++ w ∷ post))
            (await_return n (pre ++ w ∷ post) s') (λ _. stops)
            (λ _. await_return-deadline n pre post w s' late))
    where
      s' : Scheduler D
      s' = handle_messages s v.messages

      Over : Option (Scheduler D × List (Wake D)) → Type 0
      Over r = (t : Scheduler D) × (between : List (Wake D)) × (r ≡ some (t, between ++ post))

      stops : Over (some (s', pre ++ w ∷ post))
      stops = (s', pre ++ w ∷ [], ap (λ l. some (s', l)) (sym (append_assoc pre (w ∷ []) post)))
