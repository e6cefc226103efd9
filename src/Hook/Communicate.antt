-- ===== src/Hook/Communicate.antt =====
-- `communicate` of src/hook.cpp: a request is sent and its response awaited, in up to five attempts. What
-- the network does to each attempt is an argument, and so is what the request does to the Pod manager.
use native.Mathlib.Nat.{suc-mul}
use gemini.Prelude.{
  ℕ, zero, suc, ◌+◌, ◌*◌, ◌^◌, ◌<◌, ◌≤◌, ◌≡◌, refl, ap, Bool, true, false, Option, some,
  if◌then◌else◌, ltb, arith, Bool-cases, inl, inr,
}
use gemini.Prelude.Int.{ℤ, pos, negsuc}
use gemini.Comm.Attempts.{Attempt, multiple_attempt, multiple_attempt-success}
use gemini.PodManager.Memory.{Memory, hook_update_memory_usage}

-- An attempt: `send` fails; the Pod manager serves the request, and no response is received in time; a response
-- is received; or the Pod manager has closed the connection, and `recv` gives 0, which is no failure here.
pub data Outcome : Type 0 where
  not_sent unanswered : ℤ → Outcome
  answered closed : Outcome

-- What the function that `multiple_attempt` calls returns, with `errno`.
abbrev pub attempt_of : Outcome → Attempt
attempt_of (not_sent errno) = record { rc = negsuc 0; errno = errno }
attempt_of (unanswered errno) = record { rc = negsuc 0; errno = errno }
attempt_of answered = record { rc = pos 0; errno = pos 0 }
attempt_of closed = record { rc = pos 0; errno = pos 0 }

abbrev pub is_delivered : Outcome → Bool
is_delivered (not_sent errno) = false
is_delivered (unanswered errno) = true
is_delivered answered = true
is_delivered closed = false

-- Whether of the attempts from `i` on, so many, the first that succeeds finds the connection closed: then nothing
-- is in the buffer for the response.
unfoldable pub finds_closed : (n : ℕ) → (ℕ → Outcome) → (i : ℕ) → Bool
finds_closed zero outcomes i = false
finds_closed (suc n) outcomes i =
    let rest = finds_closed n outcomes (suc i) in
    elim (outcomes i) [
      | not_sent errno ↦ rest
      | unanswered errno ↦ rest
      | answered ↦ false
      | closed ↦ true
    ]

finds_closed-answered :
    (k n i : ℕ) (outcomes : ℕ → Outcome)
    → ((j : ℕ) → i ≤ j → j < i + k → (errno : ℤ) × (outcomes j ≡ unanswered errno))
    → outcomes (i + k) ≡ answered
    → finds_closed n outcomes i ≡ false
unfolding finds_closed
finds_closed-answered k zero i outcomes lost last = refl
finds_closed-answered zero (suc n) i outcomes lost last =
    let e : i + 0 ≡ i = omega arith in
    let last' : outcomes i ≡ answered = rw e at last in rw (last', finds_closed) refl
finds_closed-answered (suc k) (suc n) i outcomes lost last =
    let e : i + suc k ≡ suc i + k = omega arith in
    rw ((lost i (omega arith) (omega arith)).1, finds_closed)
      (finds_closed-answered k n (suc i) outcomes (λ j le lt. lost j (omega arith) (omega arith))
        (rw e at last))

-- The call whose response is received is the first that succeeds.
pub finds_closed-first :
    (k n : ℕ) (outcomes : ℕ → Outcome)
    → ((i : ℕ) → i < k → (errno : ℤ) × (outcomes i ≡ unanswered errno))
    → outcomes k ≡ answered
    → finds_closed n outcomes 0 ≡ false
finds_closed-first k n outcomes lost last =
    let e : k ≡ 0 + k = omega arith in
    finds_closed-answered k n 0 outcomes (λ j le lt. lost j (omega arith)) (rw e at last)

abbrev pub net_op_max_attempt : ℕ
net_op_max_attempt = 5

module _ {S : Type 0} (serve : S → S) where
  -- The Pod manager after the first attempts, so many.
  unfoldable pub served : (ℕ → Outcome) → ℕ → S → S
  served outcomes zero m = m
  served outcomes (suc calls) m =
      let before = served outcomes calls m in
      if is_delivered (outcomes calls) then serve before else before

  -- The error code, and the Pod manager afterwards.
  unfoldable pub communicate : (ℕ → Outcome) → S → Option ℤ × S
  unfolding served multiple_attempt
  communicate outcomes m =
      let (rc, calls) = multiple_attempt (λ i. attempt_of (outcomes i)) net_op_max_attempt in
      (rc, served outcomes calls m)

  -- So many times in a row.
  unfoldable pub repeated : ℕ → S → S
  repeated zero m = m
  repeated (suc n) m = serve (repeated n m)

  served-repeated :
      (outcomes : ℕ → Outcome) (calls : ℕ) (m : S)
      → ((i : ℕ) → i < calls → is_delivered (outcomes i) ≡ true)
      → served outcomes calls m ≡ repeated calls m
  unfolding served repeated
  served-repeated outcomes zero m h = refl
  served-repeated outcomes (suc calls) m h =
      rw (h calls (omega arith))
        (ap serve (served-repeated outcomes calls m (λ i lt. h i (omega arith))))

  -- If the responses to the first `k` attempts are lost and the next one arrives, the call succeeds, and
  -- the Pod manager has served the request once for each attempt.
  pub communicate-repeated :
      (outcomes : ℕ → Outcome) (k : ℕ) (m : S)
      → ((i : ℕ) → i < k → (errno : ℤ) × (outcomes i ≡ unanswered errno))
      → outcomes k ≡ answered
      → k < net_op_max_attempt
      → communicate outcomes m ≡ (some (pos 0), repeated (suc k) m)
  unfolding communicate
  communicate-repeated outcomes k m lost last few =
      rw
        (multiple_attempt-success k net_op_max_attempt (λ i. attempt_of (outcomes i))
          (λ i lt. rw ((lost i lt).1) refl) (rw last refl) few)
        (ap (λ t. (some (pos 0), t)) (served-repeated outcomes (suc k) m delivered))
    where
      delivered : (i : ℕ) → i < suc k → is_delivered (outcomes i) ≡ true
      delivered i lt = elim (Bool-cases (ltb i k)) [
        | inl before ↦ rw ((lost i (ground arith)).1) refl
        | inr after ↦ let here : i ≡ k = ground arith in rw (here, last) refl
      ]

-- What an update does to the Pod manager.
abbrev pub update : ℕ → ℕ → ℕ → Memory → Memory
update bytes is_allocate sockfd m = (hook_update_memory_usage bytes is_allocate sockfd m).1

repeated-update :
    (n bytes sockfd : ℕ) (m : Memory)
    → m.gpu_mem_used + n * bytes ≤ m.gpu_mem_limit
    → m.gpu_mem_limit < 2 ^ 64
    → ((repeated (update bytes 1 sockfd) n m).gpu_mem_used ≡ m.gpu_mem_used + n * bytes)
      × ((repeated (update bytes 1 sockfd) n m).gpu_mem_limit ≡ m.gpu_mem_limit)
unfolding repeated hook_update_memory_usage
repeated-update zero bytes sockfd m room lim = (omega arith, refl)
repeated-update (suc n) bytes sockfd m room lim =
    let (used, limit) = repeated-update n bytes sockfd m (omega (arith, suc-mul n bytes)) lim in
    ground (arith, suc-mul n bytes, used, limit)

-- If the responses to the first `k` attempts of an allocation's update are lost and the next one arrives,
-- the update succeeds, and the Pod manager has counted the bytes `k + 1` times, where there is room.
pub communicate-update :
    (outcomes : ℕ → Outcome) (k bytes sockfd : ℕ) (m : Memory)
    → ((i : ℕ) → i < k → (errno : ℤ) × (outcomes i ≡ unanswered errno))
    → outcomes k ≡ answered
    → k < net_op_max_attempt
    → m.gpu_mem_used + suc k * bytes ≤ m.gpu_mem_limit
    → m.gpu_mem_limit < 2 ^ 64
    → let r = communicate (update bytes 1 sockfd) outcomes m in
      (r.0 ≡ some (pos 0)) × (r.1.gpu_mem_used ≡ m.gpu_mem_used + suc k * bytes)
communicate-update outcomes k bytes sockfd m lost last few room lim =
    rw (communicate-repeated (update bytes 1 sockfd) outcomes k m lost last few)
      (refl, (repeated-update (suc k) bytes sockfd m room lim).0)
