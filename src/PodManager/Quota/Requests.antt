-- ===== src/PodManager/Quota/Requests.antt =====
-- Each request is queued, with the scheduler, answered, or lost by a `send` that failed, and one thread waits for it.
use gemini.Prelude.{
  one_if, ℕ, ◌+◌, ◌≡◌, refl, ◌==◌, Bool-cases, inl, inr, Option, none, some, List, [], ◌∷◌, ◌++◌,
  if◌then◌else◌, arith,
}
use gemini.PodManager.Quota.State.{
  HookPc, blocked, placed, asleep, woken, Request, System, update, wake_blocked, wake_asleep, find,
  insert_response, erase_key,
}
use gemini.PodManager.Quota.Ownership.{IsOwned}

module _ {D : Type 0} where
  -- How many requests have the id.
  unfoldable pub count_requests : ℕ → List (Request D) → ℕ
  count_requests a [] = 0
  count_requests a (r ∷ rs) = one_if (r.req_id == a) + count_requests a rs

  unfoldable pub count_responses : ℕ → List (ℕ × D) → ℕ
  count_responses a [] = 0
  count_responses a ((k, v) ∷ m) = one_if (k == a) + count_responses a m

  -- The requests that are queued, with the scheduler, answered, or dropped where `send` failed.
  unfoldable pub under_way : System D → ℕ → ℕ
  under_way s a =
      count_requests a s.request_queue
      + count_requests a s.sent
      + count_requests a s.dropped
      + count_responses a s.response_map

  -- The id that a thread waits for.
  unfoldable pub waits_for : HookPc D → Option ℕ
  waits_for (placed req_id) = some req_id
  waits_for (asleep req_id) = some req_id
  waits_for (woken req_id) = some req_id
  waits_for _ = none

  pub count_requests-append :
      (a : ℕ) (xs ys : List (Request D))
      → count_requests a (xs ++ ys) ≡ count_requests a xs + count_requests a ys
  unfolding count_requests
  count_requests-append a [] ys = omega arith
  count_requests-append a (r ∷ xs) ys = omega (arith, count_requests-append a xs ys)

  pub count_responses-insert :
      (a k : ℕ) (v : D) (m : List (ℕ × D))
      → count_responses k m ≡ 0
      → count_responses a (insert_response k v m) ≡ count_responses a m + one_if (k == a)
  unfolding count_responses insert_response
  count_responses-insert a k v [] h = ground arith
  count_responses-insert a k v ((j, w) ∷ m) h = ground (arith, count_responses-insert a k v m)

  pub count_responses-erase :
      (a k : ℕ) (v : D) (m : List (ℕ × D))
      → find k m ≡ some v
      → count_responses a (erase_key k m) + one_if (k == a) ≡ count_responses a m
  unfolding count_responses erase_key find
  count_responses-erase a k v [] h = ground arith
  count_responses-erase a k v ((j, w) ∷ m) h = ground (arith, count_responses-erase a k v m)

  pub waits_for-wake_asleep : (p : HookPc D) → waits_for (wake_asleep p) ≡ waits_for p
  unfolding waits_for wake_asleep
  waits_for-wake_asleep (asleep req_id) = refl
  waits_for-wake_asleep p = refl

  pub waits_for-wake_blocked : (p : HookPc D) → waits_for (wake_blocked p) ≡ waits_for p
  unfolding waits_for wake_blocked
  waits_for-wake_blocked (blocked o b) = refl
  waits_for-wake_blocked p = refl

  pub waits_for-update :
      (f : ℕ → HookPc D) (i j : ℕ) (p : HookPc D)
      → waits_for (update f i p j) ≡ (if i == j then waits_for p else waits_for (f j))
  waits_for-update f i j p = elim (Bool-cases (i == j)) [
    | inl here ↦ rw here refl
    | inr there ↦ rw there refl
  ]

  -- Ids are fresh from `next_id` on, and each request under way is so once and awaited by one thread.
  unfoldable pub IsConsistent : System D → Type 0
  IsConsistent s = IsOwned s.next_id (under_way s) (λ i. waits_for (s.hooks i))
