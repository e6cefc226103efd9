-- ===== src/PodManager/Quota/Steps.antt =====
-- The steps of the hook threads, of `scheduler_thread_send_func` and `scheduler_thread_recv_func`, and of
-- the scheduler that answers, interleaved in any order.
use gemini.Prelude.{ℕ, ◌+◌, ◌^◌, ◌<◌, ◌≡◌, true, false, none, some, List, [], ◌∷◌, ◌++◌}
use gemini.Double.{Double, max_d}
use gemini.Predictor.RecordKeeper.{Timepoint}
use gemini.PodManager.Quota.State.{
  HookPc, idle, entered, blocked, free, noted, recorded, expired, marked, estimated, placed, asleep,
  woken, leaving, done, ready, waiting, signalled, Request, System, update, wake_blocked,
  wake_asleep, signal, put, find, insert_response, erase_key, max_burst_from, elapsed_since,
}

module _ {D : Type 0} where
  -- Thread `i` goes on, and nothing else changes.
  abbrev pub goto : ℕ → HookPc D → System D → System D
  goto i p s = record s { hooks = update s.hooks i p }

  -- `pthread_cond_wait` may also return with no signal.
  pub data Spurious (s : System D) : System D → Type 0 where
    unblocked :
        (i : ℕ) (overuse_ms burst : D)
        → s.hooks i ≡ blocked overuse_ms burst
        → Spurious s (goto i (entered overuse_ms burst) s)
    unslept : (i req_id : ℕ) → s.hooks i ≡ asleep req_id → Spurious s (goto i (woken req_id) s)
    sender_unslept : s.sender ≡ waiting → Spurious s (record s { sender = signalled })

module _ {D : Type 0} ⦃d : Double D⦄ where
  -- The request of thread `i`, with the signal to the sender.
  unfoldable pub place : ℕ → D → System D → System D
  unfolding signal
  place i max_burst s = record s {
    request_queue =
        s.request_queue
        ++ record { req_id = s.next_id; overuse_ms = s.pod_overuse_ms; max_burst = max_burst } ∷ [];
    next_id = s.next_id + 1;
    sender = signal s.sender;
    hooks = update s.hooks i (placed s.next_id);
  }

  -- Thread `i` takes its response at the time `now`.
  unfoldable pub take_response : ℕ → ℕ → D → Timepoint → System D → System D
  unfolding erase_key
  take_response i req_id quota now s = record s {
    pod_quota = quota;
    quota_updated_tp = now;
    pod_overuse_ms = d.lit 0 1;
    response_map = erase_key req_id s.response_map;
    hooks = update s.hooks i (leaving (d.lit 0 1));
  }

  -- Thread `i` leaves the usual state behind, and wakes those that wait for it.
  unfoldable pub leave : ℕ → D → System D → System D
  unfolding wake_blocked
  leave i elapsed_time s = record s {
    quota_state = false;
    hooks = λ j. wake_blocked (update s.hooks i (done elapsed_time) j);
  }

  -- The response to a request arrives.
  unfoldable pub receive_response : ℕ → D → List (Request D) → System D → System D
  unfolding insert_response wake_asleep
  receive_response req_id quota rest s = record s {
    sent = rest;
    response_map = insert_response req_id quota s.response_map;
    hooks = λ j. wake_asleep (s.hooks j);
  }

  pub data Step (s : System D) : System D → Type 0 where
    call :
        (i : ℕ) (overuse_ms burst : D)
        → s.hooks i ≡ idle
        → Step s (goto i (entered overuse_ms burst) s)
    pass :
        (i : ℕ) (overuse_ms burst : D)
        → s.hooks i ≡ entered overuse_ms burst
        → s.quota_state ≡ false
        → Step s (goto i (free overuse_ms burst) s)
    block :
        (i : ℕ) (overuse_ms burst : D)
        → s.hooks i ≡ entered overuse_ms burst
        → s.quota_state ≡ true
        → Step s (goto i (blocked overuse_ms burst) s)
    note :
        (i : ℕ) (overuse_ms burst : D)
        → s.hooks i ≡ free overuse_ms burst
        → Step s
            (goto i (noted burst) (record s { pod_overuse_ms = max_d overuse_ms s.pod_overuse_ms }))
    record_burst :
        (i : ℕ) (burst : D)
        → s.hooks i ≡ noted burst
        → Step s (
            goto i
              (recorded burst)
              (record s { client_burst_map = put i burst s.client_burst_map }))
    keep :
        (i : ℕ) (burst : D) (now : Timepoint)
        → s.hooks i ≡ recorded burst
        → d.lt s.pod_quota (d.add (elapsed_since s.quota_updated_tp now) burst) ≡ false
        → Step s (goto i (leaving (elapsed_since s.quota_updated_tp now)) s)
    expire :
        (i : ℕ) (burst : D) (now : Timepoint)
        → s.hooks i ≡ recorded burst
        → d.lt s.pod_quota (d.add (elapsed_since s.quota_updated_tp now) burst) ≡ true
        → Step s (goto i expired s)
    mark : (i : ℕ) → s.hooks i ≡ expired → Step s (goto i marked (record s { quota_state = true }))
    estimate :
        (i : ℕ)
        → s.hooks i ≡ marked
        → Step s (goto i (estimated (max_burst_from (d.lit 0 1) s.client_burst_map)) s)
    request :
        (i : ℕ) (max_burst : D)
        → s.hooks i ≡ estimated max_burst
        → s.next_id + 1 < 2 ^ 31
        → Step s (place i max_burst s)
    sleep : (i req_id : ℕ) → s.hooks i ≡ placed req_id → Step s (goto i (asleep req_id) s)
    complete :
        (i req_id : ℕ) (quota : D) (now : Timepoint)
        → s.hooks i ≡ woken req_id
        → find req_id s.response_map ≡ some quota
        → Step s (take_response i req_id quota now s)
    again :
        (i req_id : ℕ)
        → s.hooks i ≡ woken req_id
        → find req_id s.response_map ≡ none
        → Step s (goto i (placed req_id) s)
    finish :
        (i : ℕ) (elapsed_time : D)
        → s.hooks i ≡ leaving elapsed_time
        → Step s (leave i elapsed_time s)
    reply : (i : ℕ) (elapsed_time : D) → s.hooks i ≡ done elapsed_time → Step s (goto i idle s)
    -- the end of `hook_thread_func`; the socket may be used again
    hang_up :
        (i : ℕ)
        → s.hooks i ≡ idle
        → Step s (record s { client_burst_map = erase_key i s.client_burst_map })
    sender_wait : s.sender ≡ ready → Step s (record s { sender = waiting })
    sender_empty :
        s.sender ≡ signalled → s.request_queue ≡ [] → Step s (record s { sender = ready })
    send :
        (r : Request D) (rest : List (Request D))
        → s.sender ≡ signalled
        → s.request_queue ≡ r ∷ rest
        → Step s (record s { sender = ready; request_queue = rest; sent = s.sent ++ r ∷ [] })
    -- a request whose `send` fails has left the queue all the same
    drop :
        (r : Request D) (rest : List (Request D))
        → s.sender ≡ signalled
        → s.request_queue ≡ r ∷ rest
        → Step s (record s { sender = ready; request_queue = rest; dropped = s.dropped ++ r ∷ [] })
    -- the scheduler answers its requests in any order
    answer :
        (before after : List (Request D)) (r : Request D) (quota : D)
        → s.sent ≡ before ++ r ∷ after
        → Step s (receive_response r.req_id quota (before ++ after) s)

  -- The state in which the threads start; id 0 went to the request for the memory limit.
  abbrev pub init : Timepoint → System D
  init tp = record {
    quota_state = false;
    pod_overuse_ms = d.lit 0 1;
    client_burst_map = [];
    pod_quota = d.lit 0 1;
    quota_updated_tp = tp;
    request_queue = [];
    response_map = [];
    next_id = 1;
    sent = [];
    dropped = [];
    sender = ready;
    hooks = λ _. idle;
  }

  -- The states that steps lead to, with spurious wake-ups.
  pub data Reach (s : System D) : System D → Type 0 where
    here : Reach s s
    next : {t u : System D} → Reach s t → Step t u → Reach s u
    wakes : {t u : System D} → Reach s t → Spurious t u → Reach s u

  -- A state that is reached from another one.
  pub record Run (s : System D) : Type 0 where
    pub last : System D
    pub reach : Reach s last
