-- ===== src/PodManager/Quota/Delivery.antt =====
-- Every step keeps the requests and the threads that wait for them together.
use gemini.Prelude.{
  one_if, ℕ, ◌+◌, ◌≡◌, refl, sym, ap, ◌∙◌, ◌==◌, ==_iff, Bool-cases, inl, inr, some, List, [], ◌∷◌,
  ◌++◌, arith,
}
use gemini.Double.{Double}
use gemini.Predictor.RecordKeeper.{Timepoint}
use gemini.PodManager.Quota.State.{
  HookPc, idle, entered, blocked, free, noted, recorded, expired, marked, estimated, placed, asleep,
  woken, leaving, done, ready, Request, System, update, find, elapsed_since, max_burst_from,
}
use gemini.PodManager.Quota.Steps.{
  place, take_response, leave, receive_response, Step, call, pass, block, note, record_burst, keep,
  expire, mark, estimate, request, sleep, complete, again, finish, reply, hang_up, sender_wait,
  sender_empty, send, drop, answer, Spurious, unblocked, unslept, sender_unslept, init, Reach, here,
  next, wakes,
}
use gemini.PodManager.Quota.Ownership.{IsOwned, IsOwned-ext, IsOwned-add, IsOwned-remove}
use gemini.PodManager.Quota.Requests.{
  count_requests, count_responses, under_way, waits_for, count_requests-append,
  count_responses-insert, count_responses-erase, waits_for-wake_asleep, waits_for-wake_blocked,
  waits_for-update, IsConsistent,
}

module _ {D : Type 0} ⦃d : Double D⦄ where
  -- A thread goes on that waits for the same id as before.
  keeps :
      (s : System D) (i : ℕ) (p q : HookPc D)
      → IsConsistent s
      → s.hooks i ≡ p
      → waits_for q ≡ waits_for p
      → IsOwned s.next_id (under_way s) (λ j. waits_for (update s.hooks i q j))
  unfolding IsConsistent
  keeps s i p q inv at same =
      IsOwned-ext inv (under_way s) (λ j. waits_for (update s.hooks i q j)) (λ a. refl)
        λ j. waits_for-update s.hooks i j q ∙ elim (Bool-cases (i == j)) [
          | inl self ↦
              rw self (
                same
                ∙ sym (ap waits_for at)
                ∙ ap (λ k. waits_for (s.hooks k)) ((==_iff i j).0 self))
          | inr other ↦ rw other refl
        ]

  place-IsConsistent :
      (s : System D) (i : ℕ) (max_burst : D)
      → IsConsistent s
      → s.hooks i ≡ estimated max_burst
      → IsConsistent (place i max_burst s)
  unfolding IsConsistent place under_way waits_for count_requests
  place-IsConsistent s i max_burst inv at =
      IsOwned-add inv i (under_way (place i max_burst s))
        (λ j. waits_for ((place i max_burst s).hooks j)) (ap waits_for at)
        (λ a. omega (
          arith,
          count_requests-append a s.request_queue (
              record { req_id = s.next_id; overuse_ms = s.pod_overuse_ms; max_burst = max_burst }
              ∷ []),
        ))
        (λ j. waits_for-update s.hooks i j (placed s.next_id))

  take_response-IsConsistent :
      (s : System D) (i req_id : ℕ) (quota : D) (now : Timepoint)
      → IsConsistent s
      → s.hooks i ≡ woken req_id
      → find req_id s.response_map ≡ some quota
      → IsConsistent (take_response i req_id quota now s)
  unfolding IsConsistent take_response under_way waits_for
  take_response-IsConsistent s i req_id quota now inv at found =
      let t = take_response i req_id quota now s in
      IsOwned-remove inv i req_id (under_way t) (λ j. waits_for (t.hooks j)) (ap waits_for at)
        (λ a. omega (arith, count_responses-erase a req_id quota s.response_map found))
        (λ j. waits_for-update s.hooks i j (leaving (d.lit 0 1)))

  leave-IsConsistent :
      (s : System D) (i : ℕ) (elapsed_time : D)
      → IsConsistent s
      → s.hooks i ≡ leaving elapsed_time
      → IsConsistent (leave i elapsed_time s)
  unfolding IsConsistent leave under_way waits_for
  leave-IsConsistent s i elapsed_time inv at =
      let t = leave i elapsed_time s in
      let moved = keeps s i (leaving elapsed_time) (done elapsed_time) inv at refl in
      IsOwned-ext moved (under_way t) (λ j. waits_for (t.hooks j)) (λ a. refl)
        (λ j. waits_for-wake_blocked (update s.hooks i (done elapsed_time) j))

  send-IsConsistent :
      (s : System D) (r : Request D) (rest : List (Request D))
      → IsConsistent s
      → s.request_queue ≡ r ∷ rest
      → IsConsistent (record s { sender = ready; request_queue = rest; sent = s.sent ++ r ∷ [] })
  unfolding IsConsistent under_way count_requests
  send-IsConsistent s r rest inv queue =
      IsOwned-ext inv
        (under_way (record s { sender = ready; request_queue = rest; sent = s.sent ++ r ∷ [] }))
        (λ j. waits_for (s.hooks j))
        (λ a. omega (arith, count_requests-append a s.sent (r ∷ []), ap (count_requests a) queue))
        (λ j. refl)

  drop-IsConsistent :
      (s : System D) (r : Request D) (rest : List (Request D))
      → IsConsistent s
      → s.request_queue ≡ r ∷ rest
      → IsConsistent
          (record s { sender = ready; request_queue = rest; dropped = s.dropped ++ r ∷ [] })
  unfolding IsConsistent under_way count_requests
  drop-IsConsistent s r rest inv queue =
      let t = record s { sender = ready; request_queue = rest; dropped = s.dropped ++ r ∷ [] } in
      IsOwned-ext inv (under_way t) (λ j. waits_for (s.hooks j))
        (λ a.
          omega (arith, count_requests-append a s.dropped (r ∷ []), ap (count_requests a) queue))
        (λ j. refl)

  count_requests-middle :
      (a : ℕ) (before after : List (Request D)) (r : Request D)
      → count_requests a (before ++ r ∷ after)
        ≡ count_requests a (before ++ after) + one_if (r.req_id == a)
  unfolding count_requests
  count_requests-middle a before after r =
      omega
        (arith, count_requests-append a before (r ∷ after), count_requests-append a before after)

  answer-IsConsistent :
      (s : System D) (before after : List (Request D)) (r : Request D) (quota : D)
      → IsConsistent s
      → s.sent ≡ before ++ r ∷ after
      → IsConsistent (receive_response r.req_id quota (before ++ after) s)
  unfolding IsConsistent receive_response under_way
  answer-IsConsistent s before after r quota inv q =
      let t = receive_response r.req_id quota (before ++ after) s in
      IsOwned-ext inv (under_way t) (λ j. waits_for (t.hooks j)) out
        (λ j. waits_for-wake_asleep (s.hooks j))
    where
      sent :
          (a : ℕ)
          → count_requests a s.sent ≡ count_requests a (before ++ after) + one_if (r.req_id == a)
      sent a = ap (count_requests a) q ∙ count_requests-middle a before after r

      unanswered : count_responses r.req_id s.response_map ≡ 0
      unanswered = ground (arith, sent r.req_id, inv.once r.req_id)

      out :
          (a : ℕ)
          → under_way (receive_response r.req_id quota (before ++ after) s) a ≡ under_way s a
      out a =
          omega (arith, sent a, count_responses-insert a r.req_id quota s.response_map unanswered)

  Step-IsConsistent : {s t : System D} → Step s t → IsConsistent s → IsConsistent t
  unfolding IsConsistent under_way waits_for
  Step-IsConsistent {s} (call i o b at) inv = keeps s i idle (entered o b) inv at refl
  Step-IsConsistent {s} (pass i o b at q) inv = keeps s i (entered o b) (free o b) inv at refl
  Step-IsConsistent {s} (block i o b at q) inv = keeps s i (entered o b) (blocked o b) inv at refl
  Step-IsConsistent {s} (note i o b at) inv = keeps s i (free o b) (noted b) inv at refl
  Step-IsConsistent {s} (record_burst i b at) inv = keeps s i (noted b) (recorded b) inv at refl
  Step-IsConsistent {s} (keep i b now at q) inv =
      keeps s i (recorded b) (leaving (elapsed_since s.quota_updated_tp now)) inv at refl
  Step-IsConsistent {s} (expire i b now at q) inv = keeps s i (recorded b) expired inv at refl
  Step-IsConsistent {s} (mark i at) inv = keeps s i expired marked inv at refl
  Step-IsConsistent {s} (estimate i at) inv =
      keeps s i marked (estimated (max_burst_from (d.lit 0 1) s.client_burst_map)) inv at refl
  Step-IsConsistent {s} (request i m at small) inv = place-IsConsistent s i m inv at
  Step-IsConsistent {s} (sleep i id at) inv = keeps s i (placed id) (asleep id) inv at refl
  Step-IsConsistent {s} (complete i id quota now at found) inv =
      take_response-IsConsistent s i id quota now inv at found
  Step-IsConsistent {s} (again i id at missing) inv = keeps s i (woken id) (placed id) inv at refl
  Step-IsConsistent {s} (finish i e at) inv = leave-IsConsistent s i e inv at
  Step-IsConsistent {s} (reply i e at) inv = keeps s i (done e) idle inv at refl
  Step-IsConsistent {s} (hang_up i at) inv = inv
  Step-IsConsistent {s} (sender_wait at) inv = inv
  Step-IsConsistent {s} (sender_empty at q) inv = inv
  Step-IsConsistent {s} (send r rest at q) inv = send-IsConsistent s r rest inv q
  Step-IsConsistent {s} (drop r rest at q) inv = drop-IsConsistent s r rest inv q
  Step-IsConsistent {s} (answer before after r quota q) inv =
      answer-IsConsistent s before after r quota inv q

  Spurious-IsConsistent : {s t : System D} → Spurious s t → IsConsistent s → IsConsistent t
  unfolding IsConsistent under_way waits_for
  Spurious-IsConsistent {s} (unblocked i o b at) inv =
      keeps s i (blocked o b) (entered o b) inv at refl
  Spurious-IsConsistent {s} (unslept i id at) inv = keeps s i (asleep id) (woken id) inv at refl
  Spurious-IsConsistent (sender_unslept at) inv = inv

  -- However the threads are interleaved, and with any spurious wake-ups: the ids of new requests are
  -- fresh, each id has at most one request that is queued, with the scheduler, answered, or dropped because
  -- `send` failed; each thread that waits for an id has one, no two threads wait for the same one, and none is
  -- without a thread.
  pub Reach-IsConsistent : (tp : Timepoint) {s : System D} → Reach (init tp) s → IsConsistent s
  unfolding IsConsistent under_way waits_for count_requests count_responses
  Reach-IsConsistent tp here = record {
    fresh = λ a h. omega arith;
    once = λ a. omega arith;
    awaited = λ i a h. cc;
    unique = λ i j a h k. cc;
    owned = λ a h. absurd (omega arith);
  }
  Reach-IsConsistent tp (next r st) = Step-IsConsistent st (Reach-IsConsistent tp r)
  Reach-IsConsistent tp (wakes r sp) = Spurious-IsConsistent sp (Reach-IsConsistent tp r)
