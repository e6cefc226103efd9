-- ===== src/Tests/ResourceFiles.antt =====
-- A resource file with two clients: "2", then "ab 0.2 0.5 300" and "c 0.3 0.8 4096", each on its line.
use gemini.Prelude.{
  All, ℕ, ◌+◌, ◌-◌, ◌<◌, ◌≡◌, refl, arith, ◌&&◌, Option, none, some, List, [], ◌∷◌, map,
  if◌then◌else◌, ◌==◌, Name,
}
use gemini.Prelude.Int.{pos}
use gemini.Prelude.Numerals.{Numeral, is_digit, is_digit_char, char_value}
use gemini.Double.{Fixed, fixed_double}
use gemini.Comm.Buffer.{zeros}
use gemini.Scheduler.Requests.{Line, read_resource_config, read_line}
use gemini.Scheduler.ResourceFile.{
  stream_at, read_resource_text, extract_int, extract_lines, extract_line, extract_numbers,
  extract_word, extract_double, extract_size, double_at, word_at, signed, int_at, size_at,
  skip_spaces, take_word, take_digits,
}
use gemini.Scheduler.ResourceText.{
  IsWritten, no_space, Entry, line_of, file_text, IsReal, read_resource_text-file_text,
}
use gemini.Tests.Schedulers.{tenths, busy}

-- Reads a digit, a point and a digit.
abbrev pub one_place : List ℕ → Option (Fixed × List ℕ)
one_place (a ∷ b ∷ c ∷ rest) =
    if (a == 48) && (b == 46) && is_digit c then some (tenths (c - 48), rest) else none
one_place cs = none

abbrev pub two : Numeral
two = record { first = 2; others = [] }

abbrev pub entry : Name → ℕ → ℕ → Numeral → Entry Fixed
entry n least most memory = record {
  name = n;
  least_text = 48 ∷ 46 ∷ (48 + least) ∷ [];
  most_text = 48 ∷ 46 ∷ (48 + most) ∷ [];
  memory = memory;
  least = tenths least;
  most = tenths most;
}

abbrev pub entries : List (Entry Fixed)
entries =
    entry (97 ∷ 98 ∷ []) 2 5 (record { first = 3; others = 0 ∷ 0 ∷ [] })
    ∷ entry (99 ∷ []) 3 8 (record { first = 4; others = 0 ∷ 9 ∷ 6 ∷ [] })
    ∷ []

abbrev pub stale : Line Fixed
stale = record {
  client_name = [];
  gpu_min_fraction = tenths 0;
  gpu_max_fraction = tenths 0;
  gpu_memory_size = 0;
}

real : (n : ℕ) → n < 10 → IsReal one_place (48 ∷ 46 ∷ (48 + n) ∷ []) (tenths n)
real n small = record {
  filled = omega arith;
  visible = (refl, (refl, (no_space n small, tt)));
  read = λ rest. rw (is_digit_char n small, char_value n) refl;
}

pub entries-IsWritten : All (IsWritten one_place) entries
entries-IsWritten = (
  record {
    word = record { filled = omega arith; short = omega arith; visible = (refl, (refl, tt)) };
    least = real 2 (omega arith);
    most = real 5 (omega arith);
    numeral = (omega arith, (omega arith, (omega arith, tt)));
    small = omega arith;
  },
  (
    record {
      word = record { filled = omega arith; short = omega arith; visible = (refl, tt) };
      least = real 3 (omega arith);
      most = real 8 (omega arith);
      numeral = (omega arith, (omega arith, (omega arith, (omega arith, tt))));
      small = omega arith;
    },
    tt,
  ),
)

read_resource_text-file_text_example :
    read_resource_text one_place (pos 7) stale (file_text two entries) busy
    ≡ some (read_resource_config busy (map line_of entries))
read_resource_text-file_text_example =
    read_resource_text-file_text one_place two entries (pos 7) stale busy (omega arith, tt)
      (omega arith) (omega arith) entries-IsWritten

-- An empty file leaves the number of rounds as it was, and each of them takes the variables as they were.
empty_file : read_resource_text one_place (pos 1) stale [] busy ≡ some (read_line busy stale)
unfolding read_resource_text extract_int extract_lines extract_line extract_numbers extract_word
    extract_double extract_size skip_spaces
empty_file = refl

-- "2" and a line "c 0.3 0.8 1": the second round makes the client of the first one again.
missing_line :
    let text : List ℕ = 50 ∷ 10 ∷ 99 ∷ 32 ∷ 48 ∷ 46 ∷ 51 ∷ 32 ∷ 48 ∷ 46 ∷ 56 ∷ 32 ∷ 49 ∷ 10 ∷ [] in
    let line : Line Fixed = record {
      client_name = 99 ∷ [];
      gpu_min_fraction = tenths 3;
      gpu_max_fraction = tenths 8;
      gpu_memory_size = 1;
    } in
    read_resource_text one_place (pos 7) stale text busy
    ≡ some (read_resource_config busy (line ∷ line ∷ []))
unfolding read_resource_text extract_int extract_lines extract_line extract_numbers extract_word
    extract_double extract_size double_at word_at signed int_at size_at skip_spaces take_word
    take_digits read_resource_config
missing_line = refl

-- A word of 64 characters writes past the end of `client_name`.
long_name : extract_word [] (stream_at (map (λ i. 97) (zeros 64))) ≡ none
unfolding extract_word word_at skip_spaces take_word zeros
long_name = refl
