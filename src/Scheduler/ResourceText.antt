-- ===== src/Scheduler/ResourceText.antt =====
-- A resource file as it is written: the number of the clients, and a line for each; and what reading it gives.
use native.Mathlib.Nat.{pow-suc}
use gemini.Prelude.{
  ℕ, ◌==◌, ltb, ◌+◌, ◌*◌, ◌^◌, ◌<◌, ◌≡◌, refl, sym, ap, ◌∙◌, arith, true, false, Option, some, List,
  [], ◌∷◌, ◌++◌, map, length, All, Name,
}
use gemini.Prelude.Int.{ℤ, pos}
use gemini.Prelude.Numerals.{
  Numeral, AreDigits, IsNumeral, value, number, characters, written, is_digit, is_space,
  is_digit_char, char_value, value_shift,
}
use gemini.Double.{Double}
use gemini.Comm.Buffer.{◌>>=◌}
use gemini.Scheduler.Select.{Scheduler}
use gemini.Scheduler.Requests.{Line, read_resource_config, read_line}
use gemini.Scheduler.ResourceFile.{
  stream_at, skip_spaces, take_word, take_digits, int_at, size_at, signed, extract_int,
  extract_size, host_name_max, word_at, extract_word, double_at, extract_double, extract_numbers,
  extract_line, extract_lines, read_resource_text,
}

take_digits-characters :
    (n : ℕ) (ds : List ℕ) (c : ℕ) (rest : List ℕ)
    → AreDigits ds
    → is_digit c ≡ false
    → take_digits n (characters ds ++ c ∷ rest) ≡ (n * 10 ^ length ds + value ds, c ∷ rest)
unfolding take_digits
take_digits-characters n [] c rest h other = rw other (ap (λ k. (k, c ∷ rest)) (omega arith))
take_digits-characters n (d ∷ ds) c rest (small, h) other =
    rw (is_digit_char d small, pow-suc 10 (length ds))
      (ap (λ k. take_digits (n * 10 + k) (characters ds ++ c ∷ rest)) (char_value d)
        ∙ (take_digits-characters (n * 10 + d) ds c rest h other
            ∙ ap (λ k. (k, c ∷ rest)) (value_shift n d (10 ^ length ds) (value ds))))

digits_of_numeral :
    (m : Numeral) (c : ℕ) (rest : List ℕ)
    → IsNumeral m
    → is_digit c ≡ false
    → take_digits 0 (written m ++ c ∷ rest) ≡ (number m, c ∷ rest)
digits_of_numeral m c rest h other =
    take_digits-characters 0 (m.first ∷ m.others) c rest h other
    ∙ ap (λ k. (k, c ∷ rest)) (omega arith)

pub no_space : (d : ℕ) → d < 10 → is_space (48 + d) ≡ false
no_space d small = ground arith

no_sign : (d : ℕ) → d < 10 → ((48 + d == 43) ≡ false) × ((48 + d == 45) ≡ false)
no_sign d small = (ground arith, ground arith)

below : (a b : ℕ) → a < b → ltb a b ≡ true
below a b h = ground arith

extract_int-written :
    (old : ℤ) (m : Numeral) (rest : List ℕ)
    → IsNumeral m
    → number m < 2 ^ 31
    → extract_int old (stream_at (written m ++ 10 ∷ rest)) ≡ (pos (number m), stream_at (10 ∷ rest))
unfolding extract_int skip_spaces signed int_at
extract_int-written old m rest h small =
    rw
      (
        no_space m.first h.0,
        (no_sign m.first h.0).0,
        (no_sign m.first h.0).1,
        is_digit_char m.first h.0,
        digits_of_numeral m 10 rest h refl,
        below (number m) (2 ^ 31) small,
      )
      refl

extract_size-written :
    (old : ℕ) (m : Numeral) (rest : List ℕ)
    → IsNumeral m
    → number m < 2 ^ 64
    → extract_size old (stream_at (32 ∷ written m ++ 10 ∷ rest)) ≡ (number m, stream_at (10 ∷ rest))
unfolding extract_size skip_spaces signed size_at
extract_size-written old m rest h small =
    rw
      (
        no_space m.first h.0,
        (no_sign m.first h.0).0,
        (no_sign m.first h.0).1,
        is_digit_char m.first h.0,
        digits_of_numeral m 10 rest h refl,
        below (number m) (2 ^ 64) small,
      )
      refl

-- A text with a space behind it.
abbrev pub spaced : List ℕ → List ℕ → List ℕ
spaced w rest = w ++ 32 ∷ rest

-- Characters of a word.
abbrev pub AreVisible : List ℕ → Type 0
AreVisible w = All (λ c. is_space c ≡ false) w

-- A name as it may stand in the file: not empty, and with its end it fits in the array.
pub record IsWord (w : List ℕ) : Type 0 where
  pub filled : 0 < length w
  pub short : length w < host_name_max
  pub visible : AreVisible w

take_word-append :
    (w : List ℕ) (rest : List ℕ) → AreVisible w → take_word (spaced w rest) ≡ (w, 32 ∷ rest)
unfolding take_word
take_word-append [] rest h = refl
take_word-append (c ∷ w) rest (seen, h) = rw (seen, take_word-append w rest h) refl

extract_word-append :
    (old w rest : List ℕ)
    → IsWord w
    → extract_word old (stream_at (10 ∷ spaced w rest)) ≡ some (w, stream_at (32 ∷ rest))
unfolding extract_word skip_spaces word_at
extract_word-append old [] rest h = absurd (omega (arith, h.filled))
extract_word-append old (c ∷ w) rest h =
    rw
      (
        h.visible.0,
        take_word-append (c ∷ w) rest h.visible,
        below (length (c ∷ w)) host_name_max h.short,
      )
      refl

-- What a line of the file says, with the texts of its two fractions and the numeral of its memory.
pub record Entry (D : Type 0) : Type 0 where
  pub name : Name
  pub least_text : List ℕ
  pub most_text : List ℕ
  pub memory : Numeral
  pub least : D
  pub most : D

module _ {D : Type 0} where
  abbrev pub line_of : Entry D → Line D
  line_of e = record {
    client_name = e.name;
    gpu_min_fraction = e.least;
    gpu_max_fraction = e.most;
    gpu_memory_size = number e.memory;
  }

  -- A new line, and what it says between single spaces, in front of what follows.
  abbrev pub line_text : Entry D → List ℕ → List ℕ
  line_text e rest =
      10 ∷ spaced e.name (spaced e.least_text (spaced e.most_text (written e.memory ++ rest)))

  unfoldable pub lines_text : List (Entry D) → List ℕ
  lines_text [] = 10 ∷ []
  lines_text (e ∷ es) = line_text e (lines_text es)

  abbrev pub file_text : Numeral → List (Entry D) → List ℕ
  file_text count es = written count ++ lines_text es

  new_line : (es : List (Entry D)) → (rest : List ℕ) × (lines_text es ≡ 10 ∷ rest)
  unfolding lines_text
  new_line [] = ([], refl)
  new_line (e ∷ es) = (_, refl)

module _ {D : Type 0} ⦃d : Double D⦄ (num_get : List ℕ → Option (D × List ℕ)) where
  -- A text that is read as the number `x`: it has no space in front, and what follows the space behind it is left.
  pub record IsReal (text : List ℕ) (x : D) : Type 0 where
    pub filled : 0 < length text
    pub visible : AreVisible text
    pub read : (rest : List ℕ) → num_get (spaced text rest) ≡ some (x, 32 ∷ rest)

  extract_double-append :
      (old x : D) (text rest : List ℕ)
      → IsReal text x
      → extract_double num_get old (stream_at (32 ∷ spaced text rest)) ≡ (x, stream_at (32 ∷ rest))
  unfolding extract_double skip_spaces double_at
  extract_double-append old x [] rest h = absurd (omega (arith, h.filled))
  extract_double-append old x (c ∷ text) rest h = rw (h.visible.0, h.read rest) refl

  pub record IsWritten (e : Entry D) : Type 0 where
    pub word : IsWord e.name
    pub least : IsReal e.least_text e.least
    pub most : IsReal e.most_text e.most
    pub numeral : IsNumeral e.memory
    pub small : number e.memory < 2 ^ 64

  extract_numbers-written :
      (e : Entry D) (old : Line D) (rest : List ℕ)
      → IsWritten e
      → extract_numbers num_get old (
        e.name,
        stream_at (32 ∷ spaced e.least_text (spaced e.most_text (written e.memory ++ 10 ∷ rest))),
      )
        ≡ (line_of e, stream_at (10 ∷ rest))
  unfolding extract_numbers
  extract_numbers-written e old rest h =
      rw
        (
          extract_double-append old.gpu_min_fraction e.least e.least_text
              (spaced e.most_text (written e.memory ++ 10 ∷ rest)) h.least,
          extract_double-append old.gpu_max_fraction e.most e.most_text
              (written e.memory ++ 10 ∷ rest) h.most,
          extract_size-written old.gpu_memory_size e.memory rest h.numeral h.small,
        )
        refl

  extract_line-line_text :
      (e : Entry D) (old : Line D) (rest : List ℕ)
      → IsWritten e
      → extract_line num_get old (stream_at (line_text e (10 ∷ rest)))
        ≡ some (line_of e, stream_at (10 ∷ rest))
  unfolding extract_line
  extract_line-line_text e old rest h =
      ap (λ o. o >>= λ r. some (extract_numbers num_get old r))
        (extract_word-append old.client_name e.name
          (spaced e.least_text (spaced e.most_text (written e.memory ++ 10 ∷ rest))) h.word)
      ∙ ap some (extract_numbers-written e old rest h)

  extract_lines-lines_text :
      (es : List (Entry D)) (old : Line D) (s : Scheduler D)
      → All IsWritten es
      → extract_lines num_get (length es) old (stream_at (lines_text es)) s
        ≡ some (read_resource_config s (map line_of es))
  unfolding extract_lines read_resource_config lines_text
  extract_lines-lines_text [] old s h = refl
  extract_lines-lines_text (e ∷ es) old s (h, hs) =
      let (rest, begins) = new_line es in
      rw (begins, extract_line-line_text e old rest h, sym begins)
        (extract_lines-lines_text es (line_of e) (read_line s (line_of e)) hs)

  -- From a file with the number of its lines, below 2 ^ 31, in decimal digits and a line for each client, which has a name of less
  -- than 64 characters that are no spaces, two texts that are read as numbers and a size below 2 ^ 64 in decimal digits,
  -- read_resource_config does what it does with these lines, whatever its variables hold before.
  pub read_resource_text-file_text :
      (count : Numeral) (es : List (Entry D)) (container_num : ℤ) (old : Line D) (s : Scheduler D)
      → IsNumeral count
      → number count ≡ length es
      → number count < 2 ^ 31
      → All IsWritten es
      → read_resource_text num_get container_num old (file_text count es) s
        ≡ some (read_resource_config s (map line_of es))
  unfolding read_resource_text
  read_resource_text-file_text count es container_num old s numeral counted small h =
      let (rest, begins) = new_line es in
      rw (begins, extract_int-written container_num count rest numeral small, counted, sym begins)
        (extract_lines-lines_text es old s h)
