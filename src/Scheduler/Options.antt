-- ===== src/Scheduler/Options.antt =====
-- The command line of src/scheduler.cpp: the options that `main` takes from `getopt_long`, and the path of the
-- resource file.
use gemini.Prelude.{
  ℕ, zero, suc, ◌-◌, ◌%◌, ◌^◌, ◌≡◌, refl, Bool, true, false, Option, none, some, List, [], ◌∷◌,
  if◌then◌else◌,
}
use gemini.Prelude.Int.{ℤ}
use gemini.Hook.Connection.{atoi}

-- What `getopt_long` gives one after the other, with `optarg`; `other` is what no case is for.
pub data Opt : Type 0 where
  port quota min_quota window limit_file limit_file_dir verbose : List ℕ → Opt
  help other : Opt

pub record Settings (D : Type 0) : Type 0 where
  pub schd_port : ℕ
  pub base_quota : D
  pub least_quota : D
  pub window_size : D
  pub limit_file_name : List ℕ
  pub limit_dir : List ℕ
  pub verbosity : ℤ

abbrev pub path_max : ℕ
path_max = 4096

-- The first characters, so many: `strncpy` into a buffer of zero bytes.
unfoldable pub strncpy : ℕ → List ℕ → List ℕ
strncpy zero text = []
strncpy (suc n) [] = []
strncpy (suc n) (c ∷ text) = c ∷ strncpy n text

-- `strtoul` and `atof` are those of C.
module _ {D : Type 0} (strtoul : List ℕ → ℕ) (atof : List ℕ → D) where
  -- The case of an option; `none` where the program ends.
  unfoldable pub set_option : Opt → Settings D → Option (Settings D)
  unfolding strncpy atoi
  set_option (port text) s = some (record s { schd_port = strtoul text % 2 ^ 16 })
  set_option (quota text) s = some (record s { base_quota = atof text })
  set_option (min_quota text) s = some (record s { least_quota = atof text })
  set_option (window text) s = some (record s { window_size = atof text })
  set_option (limit_file text) s = some (record s { limit_file_name = strncpy (path_max - 1) text })
  set_option (limit_file_dir text) s = some (record s { limit_dir = strncpy (path_max - 1) text })
  set_option (verbose text) s = some (record s { verbosity = atoi text })
  set_option help s = none
  set_option other s = some s

  unfoldable pub parse_options : List Opt → Settings D → Option (Settings D)
  unfolding set_option
  parse_options [] s = some s
  parse_options (o ∷ os) s = elim (set_option o s) [ none ↦ none | some t ↦ parse_options os t ]

  -- The last of the values that a kind of option gives, or the default.
  unfoldable pub last_or {ℓ} : {A : Type ℓ} → (Opt → Option A) → List Opt → A → A
  last_or f [] a = a
  last_or f (o ∷ os) a = elim (f o) [ none ↦ last_or f os a | some b ↦ last_or f os b ]

  unfoldable pub asks_help : List Opt → Bool
  asks_help [] = false
  asks_help (help ∷ os) = true
  asks_help (_ ∷ os) = asks_help os

  abbrev schd_port_of : Opt → Option ℕ
  schd_port_of (port text) = some (strtoul text % 2 ^ 16)
  schd_port_of _ = none

  abbrev quota_of : Opt → Option D
  quota_of (quota text) = some (atof text)
  quota_of _ = none

  abbrev min_quota_of : Opt → Option D
  min_quota_of (min_quota text) = some (atof text)
  min_quota_of _ = none

  abbrev window_of : Opt → Option D
  window_of (window text) = some (atof text)
  window_of _ = none

  abbrev file_of : Opt → Option (List ℕ)
  file_of (limit_file text) = some (strncpy (path_max - 1) text)
  file_of _ = none

  abbrev dir_of : Opt → Option (List ℕ)
  dir_of (limit_file_dir text) = some (strncpy (path_max - 1) text)
  dir_of _ = none

  abbrev verbosity_of : Opt → Option ℤ
  verbosity_of (verbose text) = some (atoi text)
  verbosity_of _ = none

  -- Each setting by itself.
  unfoldable pub chosen : List Opt → Settings D → Settings D
  unfolding last_or
  chosen os s = record {
    schd_port = last_or schd_port_of os s.schd_port;
    base_quota = last_or quota_of os s.base_quota;
    least_quota = last_or min_quota_of os s.least_quota;
    window_size = last_or window_of os s.window_size;
    limit_file_name = last_or file_of os s.limit_file_name;
    limit_dir = last_or dir_of os s.limit_dir;
    verbosity = last_or verbosity_of os s.verbosity;
  }

  -- The program ends if help is asked for, and else each setting is the last that its option gives, whatever
  -- the order of the options of other kinds, or the default.
  pub parse_options-chosen :
      (os : List Opt) (s : Settings D)
      → parse_options os s ≡ (if asks_help os then none else some (chosen os s))
  unfolding parse_options asks_help chosen set_option last_or
  parse_options-chosen [] s = refl
  parse_options-chosen (port text ∷ os) s =
      parse_options-chosen os (record s { schd_port = strtoul text % 2 ^ 16 })
  parse_options-chosen (quota text ∷ os) s =
      parse_options-chosen os (record s { base_quota = atof text })
  parse_options-chosen (min_quota text ∷ os) s =
      parse_options-chosen os (record s { least_quota = atof text })
  parse_options-chosen (window text ∷ os) s =
      parse_options-chosen os (record s { window_size = atof text })
  parse_options-chosen (limit_file text ∷ os) s =
      parse_options-chosen os (record s { limit_file_name = strncpy (path_max - 1) text })
  parse_options-chosen (limit_file_dir text ∷ os) s =
      parse_options-chosen os (record s { limit_dir = strncpy (path_max - 1) text })
  parse_options-chosen (verbose text ∷ os) s =
      parse_options-chosen os (record s { verbosity = atoi text })
  parse_options-chosen (help ∷ os) s = refl
  parse_options-chosen (other ∷ os) s = parse_options-chosen os s
