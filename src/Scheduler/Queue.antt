-- ===== src/Scheduler/Queue.antt =====
-- The queue of requests as the messages fill it.
use mathlib.Core.List.{append_assoc, append-nil}
use gemini.Prelude.{
  ℕ, ◌≡◌, refl, sym, ap, ◌∙◌, Bool, true, false, Option, none, some, List, [], ◌∷◌, ◌++◌,
  if◌then◌else◌, Name, name_eq, name_eq_sound, Bool-cases, Option-cases, inl, inr,
}
use gemini.Double.{Double}
use gemini.Scheduler.Defs.{ClientInfo, Candidate}
use gemini.Scheduler.Select.{ClientMap, Scheduler, find_client}
use gemini.Scheduler.Requests.{
  put_client, handle_message, dispatch, request_quota, Request, req_quota, req_mem_limit,
  req_mem_update, req_unknown, Message, handle_messages,
}
use gemini.Scheduler.Safety.{find_client-put_client}

is_some : {A : Type 0} → Option A → Bool
is_some none = false
is_some (some a) = true

module _ {D : Type 0} where
  -- Whether a client is in the map.
  unfoldable pub knows : ClientMap D → Name → Bool
  unfolding is_some
  knows m n = is_some (find_client n m)

  -- The entry of the queue that a message asks for.
  unfoldable pub request_of : (Name → Bool) → Message D → List (Candidate D)
  request_of known m = elim m.request [
    | req_quota overuse burst ↦
        if known m.sender
        then record {
          socket = m.socket;
          name = m.sender;
          req_id = m.req_id;
          arrived_time = m.arrived;
        }
          ∷ []
        else []
    | req_mem_limit ↦ []
    | req_mem_update ↦ []
    | req_unknown ↦ []
  ]

  -- The requests of known clients in a list of messages.
  unfoldable pub requests : (Name → Bool) → List (Message D) → List (Candidate D)
  requests known [] = []
  requests known (m ∷ ms) = request_of known m ++ requests known ms

  pub requests-append :
      (known : Name → Bool) (ms ns : List (Message D))
      → requests known (ms ++ ns) ≡ requests known ms ++ requests known ns
  unfolding requests
  requests-append known [] ns = refl
  requests-append known (m ∷ ms) ns =
      rw (requests-append known ms ns)
        (sym (append_assoc (request_of known m) (requests known ms) (requests known ns)))

  -- To put a known client into the map adds no name.
  pub knows-put_client :
      (n : Name) (info c : ClientInfo D) (m : ClientMap D)
      → find_client n m ≡ some info
      → knows (put_client n c m) ≡ knows m
  unfolding knows
  knows-put_client n info c m known i k = each k i
    where
      each : (k : Name) → is_some (find_client k (put_client n c m)) ≡ is_some (find_client k m)
      each k = elim (Bool-cases (name_eq n k)) [
        | inl same ↦ rw (find_client-put_client n k c m, same, ← name_eq_sound n k same, known) refl
        | inr other ↦ rw (find_client-put_client n k c m, other) refl
      ]

module _ {D : Type 0} ⦃d : Double D⦄ where
  message : ℕ → Name → ℕ → (now arrived : D) → Request D → Message D
  message socket name req_id now arrived r = record {
    socket = socket;
    sender = name;
    req_id = req_id;
    request = r;
    now = now;
    arrived = arrived;
  }

  -- What messages do to the queue: it gets their requests at its end.
  abbrev pub Queued : Scheduler D → List (Message D) → Scheduler D → Type 0
  Queued s ms t =
      (t.candidates ≡ s.candidates ++ requests (knows s.client_info_map) ms)
      × (knows t.client_info_map ≡ knows s.client_info_map)

  Queued-unchanged : (s : Scheduler D) → s.candidates ≡ s.candidates ++ []
  Queued-unchanged s = sym (append-nil s.candidates)

  dispatch-Queued :
      (socket : ℕ) (name : Name) (req_id : ℕ) (now arrived : D) (info : ClientInfo D)
      (s : Scheduler D) (r : Request D)
      → find_client name s.client_info_map ≡ some info
      → Queued s
          (message socket name req_id now arrived r ∷ [])
          (dispatch socket name req_id now arrived info s r).0
  unfolding dispatch request_quota requests request_of knows message
  dispatch-Queued socket name req_id now arrived info s (req_quota overuse burst) known =
      (rw known refl, knows-put_client name info _ s.client_info_map known)
  dispatch-Queued socket name req_id now arrived info s req_mem_limit known =
      (Queued-unchanged s, refl)
  dispatch-Queued socket name req_id now arrived info s req_mem_update known =
      (Queued-unchanged s, refl)
  dispatch-Queued socket name req_id now arrived info s req_unknown known =
      (Queued-unchanged s, refl)

  requests-unknown :
      (socket : ℕ) (name : Name) (req_id : ℕ) (now arrived : D) (known : Name → Bool)
      (r : Request D)
      → known name ≡ false
      → requests known (message socket name req_id now arrived r ∷ []) ≡ []
  unfolding requests request_of message
  requests-unknown socket name req_id now arrived known (req_quota overuse burst) h = rw h refl
  requests-unknown socket name req_id now arrived known req_mem_limit h = refl
  requests-unknown socket name req_id now arrived known req_mem_update h = refl
  requests-unknown socket name req_id now arrived known req_unknown h = refl

module _ {D : Type 0} ⦃d : Double D⦄ where
  handle_message-Queued :
      (m : Message D) (s : Scheduler D)
      → Queued s (m ∷ []) (handle_message m.socket m.sender m.req_id m.request m.now m.arrived s).0
  unfolding handle_message knows message
  handle_message-Queued m s = elim (Option-cases (find_client m.sender s.client_info_map)) [
    | inl unknown ↦
        rw (unknown, handle_message)
          (
            Queued-unchanged s
                ∙ ap (λ cs. s.candidates ++ cs)
                    (sym (
                      requests-unknown m.socket m.sender m.req_id m.now m.arrived
                        (knows s.client_info_map) m.request (rw unknown refl))),
            refl,
          )
    | inr (info, known) ↦
        rw (known, handle_message)
          (dispatch-Queued m.socket m.sender m.req_id m.now m.arrived info s m.request known)
  ]

  Queued-trans :
      (s t u : Scheduler D) (ms ns : List (Message D))
      → Queued s ms t
      → Queued t ns u
      → Queued s (ms ++ ns) u
  Queued-trans s t u ms ns (queue, same) (queue', same') = (
    queue'
        ∙ (ap (λ known. t.candidates ++ requests known ns) same
            ∙ (ap (λ cs. cs ++ requests (knows s.client_info_map) ns) queue
                ∙ (append_assoc s.candidates (requests (knows s.client_info_map) ms)
                      (requests (knows s.client_info_map) ns)
                    ∙ ap (λ cs. s.candidates ++ cs)
                        (sym (requests-append (knows s.client_info_map) ms ns))))),
    same' ∙ same,
  )

  -- Handling messages puts the requests of known clients at the end of the queue, in the order in which
  -- they came, and nothing else, and the clients that are known stay the same.
  pub handle_messages-Queued :
      (ms : List (Message D)) (s : Scheduler D) → Queued s ms (handle_messages s ms)
  unfolding handle_messages requests
  handle_messages-Queued [] s = (Queued-unchanged s, refl)
  handle_messages-Queued (m ∷ ms) s =
      let t = (handle_message m.socket m.sender m.req_id m.request m.now m.arrived s).0 in
      Queued-trans s t (handle_messages t ms) (m ∷ []) ms (handle_message-Queued m s)
        (handle_messages-Queued ms t)
