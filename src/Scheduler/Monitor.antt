-- ===== src/Scheduler/Monitor.antt =====
-- `monitor_file` of src/scheduler.cpp: the resource file is read again when inotify tells that it was written.
-- What reading it does is an argument.
use mathlib.Core.List.{append_assoc}
use gemini.Prelude.{
  ℕ, zero, suc, ◌+◌, ◌/◌, ◌%◌, ◌^◌, ◌<◌, ◌≡◌, ◌==◌, refl, Bool, true, false, ◌&&◌, Option, none,
  some, List, [], ◌∷◌, ◌++◌, if◌then◌else◌, arith, ltb, All, length, length-append, Name, name_eq,
  Bool-cases, inl, inr,
}
use gemini.Prelude.Int.{ℤ, pos, negsuc}
use gemini.Comm.Buffer.{Buffer, zeros, zeros-length, to_bytes, get_msg_data, ◌>>=◌}
use gemini.Comm.Receive.{get_msg_data-at}

-- `sizeof(struct inotify_event)`
abbrev pub event_size : ℕ
event_size = 16

-- `strcmp(buf + pos, text) == 0`
unfoldable pub strcmp_at : ℕ → Buffer → Name → Option Bool
strcmp_at (suc i) [] text = none
strcmp_at (suc i) (x ∷ buf) text = strcmp_at i buf text
strcmp_at zero [] text = none
strcmp_at zero (x ∷ buf) [] = some (x == 0)
strcmp_at zero (x ∷ buf) (t ∷ text) =
    let rest = strcmp_at zero buf text in if x == t then rest else some false

-- `mask & IN_CLOSE_WRITE`
abbrev pub is_close_write : ℕ → Bool
is_close_write mask = mask / 8 % 2 == 1

-- An event as inotify(7) lays it out: the name is followed by zero bytes, and is left out, with them, if the
-- event is about the directory.
pub record Event : Type 0 where
  pub wd : ℕ
  pub mask : ℕ
  pub cookie : ℕ
  pub name : Name
  pub padding : ℕ

abbrev pub event_len : Event → ℕ
event_len e = length e.name + e.padding

abbrev header : Event → Buffer
header e =
    to_bytes 4 e.wd ++ (to_bytes 4 e.mask ++ (to_bytes 4 e.cookie ++ to_bytes 4 (event_len e)))

abbrev pub event_bytes : Event → Buffer
event_bytes e = header e ++ (e.name ++ zeros e.padding)

abbrev pub events_bytes : List Event → Buffer
events_bytes [] = []
events_bytes (e ∷ es) = event_bytes e ++ events_bytes es

pub record IsEvent (e : Event) : Type 0 where
  pub text : All (λ b. 0 < b) e.name
  pub terminated : 0 < length e.name → 0 < e.padding
  pub mask_fits : e.mask < 256 ^ 4
  pub len_fits : event_len e < 256 ^ 4

-- The file that is watched was written and closed.
abbrev pub is_written : Name → Event → Bool
is_written filename e = (ltb 0 (event_len e) && is_close_write e.mask) && name_eq e.name filename

zeros-front : (n : ℕ) → 0 < n → (m : ℕ) × (zeros n ≡ 0 ∷ zeros m)
unfolding zeros
zeros-front zero h = absurd (omega arith)
zeros-front (suc m) h = (m, refl)

strcmp_at-append :
    (done name rest : List ℕ) (text : Name)
    → All (λ b. 0 < b) name
    → All (λ b. 0 < b) text
    → strcmp_at (length done) (done ++ (name ++ 0 ∷ rest)) text ≡ some (name_eq name text)
unfolding strcmp_at name_eq
strcmp_at-append [] [] rest [] h k = refl
strcmp_at-append [] [] rest (t ∷ text) h (p, k) = ground arith
strcmp_at-append [] (a ∷ name) rest [] (q, h) k = ground arith
strcmp_at-append [] (a ∷ name) rest (t ∷ text) (q, h) (p, k) =
    ground (arith, strcmp_at-append [] name rest text h k)
strcmp_at-append (x ∷ done) name rest text h k = strcmp_at-append done name rest text h k

length-header : (e : Event) → length (header e) ≡ event_size
unfolding to_bytes
length-header e = refl

length-event_bytes : (e : Event) → length (event_bytes e) ≡ event_size + event_len e
length-event_bytes e = omega (
  arith,
  length-append (header e) (e.name ++ zeros e.padding),
  length-header e,
  length-append e.name (zeros e.padding),
  zeros-length e.padding,
)

module _ {S : Type 0} (reload : S → S) (filename : Name) where
  unfoldable pub is_target : ℕ → ℕ → ℕ → Buffer → Option Bool
  unfolding strcmp_at
  is_target i mask len buf =
      if ltb 0 len && is_close_write mask
      then strcmp_at (i + event_size) buf filename
      else some false

  -- The event at `i`: the state, and the start of the next one.
  unfoldable pub handle_event : ℕ → Buffer → S → Option (S × ℕ)
  unfolding is_target
  handle_event i buf s = get_msg_data 4 (buf, i + 12) >>= λ len.
      get_msg_data 4 (buf, i + 4) >>= λ mask. is_target i mask.0 len.0 buf >>= λ target.
      some (if target then reload s else s, i + event_size + len.0)

  -- The loop over the events, on fuel.
  unfoldable pub watch_events : ℕ → ℕ → ℕ → Buffer → S → Option S
  unfolding handle_event
  watch_events zero i length buf s = none
  watch_events (suc fuel) i length buf s = elim (ltb i length) [
    | false ↦ some s
    | true ↦ handle_event i buf s >>= λ r. watch_events fuel r.1 length buf r.0
  ]

  -- What is done with the result of `read`, -1 at an error.
  unfoldable pub handle_read : ℤ → Buffer → S → Option S
  unfolding watch_events
  handle_read (pos n) buf s = watch_events (suc n) 0 n buf s
  handle_read (negsuc n) buf s = some s

  -- One reading for each event that tells of a write to the file, in their order.
  unfoldable pub reloads : List Event → S → S
  reloads [] s = s
  reloads (e ∷ es) s = reloads es (if is_written filename e then reload s else s)

  is_target-event :
      (e : Event) (done rest : Buffer)
      → IsEvent e
      → All (λ b. 0 < b) filename
      → is_target (length done) e.mask (event_len e) (done ++ (event_bytes e ++ rest))
        ≡ some (is_written filename e)
  unfolding is_target
  is_target-event e done rest h k =
      elim (Bool-cases (ltb 0 (event_len e) && is_close_write e.mask)) [
        | inl on ↦ rw on (compared on)
        | inr off ↦ rw off refl
      ]
    where
      regroup :
          (m : ℕ)
          → zeros e.padding ≡ 0 ∷ zeros m
          → done ++ (event_bytes e ++ rest) ≡ done ++ header e ++ (e.name ++ 0 ∷ (zeros m ++ rest))
      regroup m front = rw front (simp append_assoc)

      here : length done + event_size ≡ length (done ++ header e)
      here = omega (arith, length-append done (header e), length-header e)

      compared :
          (ltb 0 (event_len e) && is_close_write e.mask) ≡ true
          → strcmp_at (length done + event_size) (done ++ (event_bytes e ++ rest)) filename
            ≡ some (name_eq e.name filename)
      compared on =
          let (m, front) = zeros-front e.padding (ground (arith, on, h.terminated)) in
          rw (regroup m front, here)
            (strcmp_at-append (done ++ header e) e.name (zeros m ++ rest) filename h.text k)

  handle_event-event :
      (e : Event) (done rest : Buffer) (s : S)
      → IsEvent e
      → All (λ b. 0 < b) filename
      → handle_event (length done) (done ++ (event_bytes e ++ rest)) s
        ≡ some
            (if is_written filename e then reload s else s, length done + event_size + event_len e)
  unfolding handle_event to_bytes
  handle_event-event e done rest s h k =
      rw
        (
          get_msg_data-at 4 (event_len e) (length done + 12) buf
              (done ++ (to_bytes 4 e.wd ++ (to_bytes 4 e.mask ++ to_bytes 4 e.cookie)))
              (e.name ++ zeros e.padding ++ rest) (simp append_assoc)
              (omega (
                arith,
                length-append done (to_bytes 4 e.wd ++ (to_bytes 4 e.mask ++ to_bytes 4 e.cookie)),
              ))
              h.len_fits,
          get_msg_data-at 4 e.mask (length done + 4) buf (done ++ to_bytes 4 e.wd)
              (to_bytes 4 e.cookie
                ++ (to_bytes 4 (event_len e) ++ (e.name ++ zeros e.padding ++ rest)))
              (simp append_assoc) (omega (arith, length-append done (to_bytes 4 e.wd))) h.mask_fits,
          is_target-event e done rest h k,
        )
        refl
    where
      buf : Buffer
      buf = done ++ (event_bytes e ++ rest)

  watch_events-reloads :
      (es : List Event) (fuel i len : ℕ) (done rest : Buffer) (s : S)
      → i ≡ length done
      → len ≡ i + length (events_bytes es)
      → All IsEvent es
      → All (λ b. 0 < b) filename
      → length (events_bytes es) < fuel
      → watch_events fuel i len (done ++ (events_bytes es ++ rest)) s ≡ some (reloads es s)
  unfolding watch_events reloads
  watch_events-reloads es zero i len done rest s ei el hs k enough = absurd (omega arith)
  watch_events-reloads [] (suc fuel) i len done rest s ei el hs k enough =
      let stops : ltb i len ≡ false = ground arith in rw (watch_events, stops) refl
  watch_events-reloads (e ∷ es) (suc fuel) i len done rest s ei el (h, hs) k enough =
      rw (watch_events, goes, handled)
        (rw regroup (
          watch_events-reloads es fuel (i + event_size + event_len e) len (done ++ event_bytes e)
            rest s' ei' el' hs k (omega (arith, longer))))
    where
      s' : S
      s' = if is_written filename e then reload s else s

      longer : length (events_bytes (e ∷ es)) ≡ event_size + event_len e + length (events_bytes es)
      longer = omega (arith, length-append (event_bytes e) (events_bytes es), length-event_bytes e)

      goes : ltb i len ≡ true
      goes = ground (arith, longer)

      handled :
          handle_event i (done ++ (events_bytes (e ∷ es) ++ rest)) s
          ≡ some (s', i + event_size + event_len e)
      handled =
          rw (ei, append_assoc (event_bytes e) (events_bytes es) rest)
            (handle_event-event e done (events_bytes es ++ rest) s h k)

      regroup :
          done ++ (events_bytes (e ∷ es) ++ rest)
          ≡ done ++ event_bytes e ++ (events_bytes es ++ rest)
      regroup = simp append_assoc

      ei' : i + event_size + event_len e ≡ length (done ++ event_bytes e)
      ei' = omega (arith, length-append done (event_bytes e), length-event_bytes e)

      el' : len ≡ i + event_size + event_len e + length (events_bytes es)
      el' = omega (arith, longer)

  -- From a buffer of events, whatever stands behind them, the file is read once for each event that tells of a
  -- write to it, for a name of the file without zero bytes.
  pub handle_read-reloads :
      (es : List Event) (rest : Buffer) (s : S)
      → All IsEvent es
      → All (λ b. 0 < b) filename
      → handle_read (pos (length (events_bytes es))) (events_bytes es ++ rest) s
        ≡ some (reloads es s)
  unfolding handle_read
  handle_read-reloads es rest s hs k =
      watch_events-reloads es (suc (length (events_bytes es))) 0 (length (events_bytes es)) [] rest
        s refl (omega arith) hs k (omega arith)
