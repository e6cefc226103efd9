-- ===== src/Scheduler/ResourceFile.antt =====
-- `read_resource_config` of src/scheduler.cpp on the text of the file: what the extractions with `>>` take from
-- the stream. A stream that has failed gives nothing more, and leaves the variables as they are.
use gemini.Prelude.{
  ℕ, zero, suc, ◌+◌, ◌-◌, ◌*◌, ◌%◌, ◌^◌, Bool, true, false, ◌||◌, Option, none, some, List, [], ◌∷◌,
  if◌then◌else◌, ltb, leb, ◌==◌, length, Name,
}
use gemini.Prelude.Int.{ℤ, pos, negsuc, ◌-ℤ◌}
use gemini.Double.{Double}
use gemini.Comm.Buffer.{◌>>=◌}
use gemini.Prelude.Numerals.{is_digit, is_space}
use gemini.Scheduler.Select.{Scheduler}
use gemini.Scheduler.Requests.{Line, read_line}

pub record Stream : Type 0 where
  pub rest : List ℕ
  pub failed : Bool

abbrev pub stream_at : List ℕ → Stream
stream_at cs = record { rest = cs; failed = false }

abbrev pub broken : List ℕ → Stream
broken cs = record { rest = cs; failed = true }

unfoldable pub skip_spaces : List ℕ → List ℕ
skip_spaces [] = []
skip_spaces (c ∷ cs) = if is_space c then skip_spaces cs else c ∷ cs

unfoldable pub take_word : List ℕ → List ℕ × List ℕ
take_word [] = ([], [])
take_word (c ∷ cs) =
    let (w, rest) = take_word cs in if is_space c then ([], c ∷ cs) else (c ∷ w, rest)

-- The number that the digits in front stand for, behind those that make `n`, and what follows them.
unfoldable pub take_digits : ℕ → List ℕ → ℕ × List ℕ
take_digits n [] = (n, [])
take_digits n (c ∷ cs) = if is_digit c then take_digits (n * 10 + (c - 48)) cs else (n, c ∷ cs)

abbrev pub starts_number : List ℕ → Bool
starts_number [] = false
starts_number (c ∷ cs) = is_digit c

-- `fin >> n` for an `int`, at a character that is no space: a number out of range is the bound, and fails.
unfoldable pub int_at : ℕ → List ℕ → ℤ × Stream
int_at sign cs =
    let (n, rest) = take_digits 0 cs in
    if starts_number cs
    then if sign == 45
      then if leb n (2 ^ 31)
        then (pos 0 -ℤ pos n, stream_at rest)
        else (negsuc (2 ^ 31 - 1), broken rest)
      else if ltb n (2 ^ 31)
      then (pos n, stream_at rest)
      else (pos (2 ^ 31 - 1), broken rest)
    else (pos 0, broken cs)

-- The same for a `size_t`, where a minus negates modulo 2 ^ 64.
unfoldable pub size_at : ℕ → List ℕ → ℕ × Stream
size_at sign cs =
    let (n, rest) = take_digits 0 cs in
    if starts_number cs
    then if ltb n (2 ^ 64)
      then (if sign == 45 then (2 ^ 64 - n) % 2 ^ 64 else n, stream_at rest)
      else (2 ^ 64 - 1, broken rest)
    else (0, broken cs)

abbrev is_sign : ℕ → Bool
is_sign c = c == 43 || c == 45

-- Past the spaces and a sign, which is handed over; with nothing there the variable stays.
unfoldable pub signed {ℓ} : {A : Type ℓ} → (ℕ → List ℕ → A × Stream) → A → List ℕ → A × Stream
signed number_at old [] = (old, broken [])
signed number_at old (c ∷ cs) = if is_sign c then number_at c cs else number_at 43 (c ∷ cs)

unfoldable pub extract_int : ℤ → Stream → ℤ × Stream
unfolding signed int_at skip_spaces
extract_int old s = if s.failed then (old, s) else signed int_at old (skip_spaces s.rest)

unfoldable pub extract_size : ℕ → Stream → ℕ × Stream
unfolding signed size_at skip_spaces
extract_size old s = if s.failed then (old, s) else signed size_at old (skip_spaces s.rest)

abbrev pub host_name_max : ℕ
host_name_max = 64

unfoldable pub word_at : Name → List ℕ → Option (Name × Stream)
unfolding take_word
word_at old [] = some (old, broken [])
word_at old (c ∷ cs) =
    let (w, rest) = take_word (c ∷ cs) in
    if ltb (length w) host_name_max then some (w, stream_at rest) else none

-- Into `client_name`; `none` where the word runs past the end of the array.
unfoldable pub extract_word : Name → Stream → Option (Name × Stream)
unfolding word_at skip_spaces
extract_word old s = if s.failed then some (old, s) else word_at old (skip_spaces s.rest)

-- `num_get` reads the double in front of a text, if there is one, and gives what follows it: `std::num_get`.
module _ {D : Type 0} ⦃d : Double D⦄ (num_get : List ℕ → Option (D × List ℕ)) where
  unfoldable pub double_at : D → List ℕ → D × Stream
  double_at old [] = (old, broken [])
  double_at old (c ∷ cs) = elim (num_get (c ∷ cs)) [
    | none ↦ (d.lit 0 1, broken (c ∷ cs))
    | some (x, rest) ↦ (x, stream_at rest)
  ]

  unfoldable pub extract_double : D → Stream → D × Stream
  unfolding double_at skip_spaces
  extract_double old s = if s.failed then (old, s) else double_at old (skip_spaces s.rest)

  unfoldable pub extract_numbers : Line D → Name × Stream → Line D × Stream
  extract_numbers l (name, s1) =
      let (least, s2) = extract_double l.gpu_min_fraction s1 in
      let (most, s3) = extract_double l.gpu_max_fraction s2 in
      let (size, s4) = extract_size l.gpu_memory_size s3 in
      (
        record {
          client_name = name;
          gpu_min_fraction = least;
          gpu_max_fraction = most;
          gpu_memory_size = size;
        },
        s4,
      )

  -- `fin >> client_name >> gpu_min_fraction >> gpu_max_fraction >> gpu_memory_size`, into the variables.
  unfoldable pub extract_line : Line D → Stream → Option (Line D × Stream)
  extract_line l s0 = extract_word l.client_name s0 >>= λ r. some (extract_numbers l r)

  -- The rounds of the loop; the variables stay between them.
  unfoldable pub extract_lines : ℕ → Line D → Stream → Scheduler D → Option (Scheduler D)
  unfolding extract_line read_line
  extract_lines zero l st s = some s
  extract_lines (suc n) l st s =
      extract_line l st >>= λ r. extract_lines n r.0 r.1 (read_line s r.0)

  abbrev pub rounds : ℤ → ℕ
  rounds (pos n) = n
  rounds (negsuc n) = 0

  -- On the text of the file; `container_num` and `l` are what the variables hold before.
  unfoldable pub read_resource_text : ℤ → Line D → List ℕ → Scheduler D → Option (Scheduler D)
  unfolding extract_int extract_lines
  read_resource_text container_num l text s =
      let (n, st) = extract_int container_num (stream_at text) in extract_lines (rounds n) l st s
