-- ===== src/Tests/Options.antt =====
-- The command line `-q 300 -P 50060 -q 400`, and the path of "r" in the directory "d".
use gemini.Prelude.{ℕ, ◌≡◌, refl, arith, some, List, [], ◌∷◌}
use gemini.Prelude.Int.{pos}
use gemini.Double.{Fixed, ms}
use gemini.Hook.Connection.{digits}
use gemini.Scheduler.Options.{
  Opt, port, quota, Settings, parse_options, chosen, asks_help, last_or, parse_options-chosen,
}
use gemini.Scheduler.FilePath.{last, with_slash, full_path, full_path-append}

abbrev defaults : Settings Fixed
defaults = record {
  schd_port = 50051;
  base_quota = ms 250;
  least_quota = ms 100;
  window_size = ms 10000;
  limit_file_name = 114 ∷ [];
  limit_dir = 46 ∷ [];
  verbosity = pos 0;
}

abbrev strtoul : List ℕ → ℕ
strtoul text = digits 0 text

abbrev atof : List ℕ → Fixed
atof text = ms (digits 0 text)

abbrev command_line : List Opt
command_line =
    quota (51 ∷ 48 ∷ 48 ∷ []) ∷ port (53 ∷ 48 ∷ 48 ∷ 54 ∷ 48 ∷ []) ∷ quota (52 ∷ 48 ∷ 48 ∷ []) ∷ []

parse_options-chosen_example :
    parse_options strtoul atof command_line defaults
    ≡ some (record defaults { schd_port = 50060; base_quota = ms 400 })
unfolding chosen asks_help last_or digits
parse_options-chosen_example = parse_options-chosen strtoul atof command_line defaults

full_path-append_example : full_path (100 ∷ []) (114 ∷ []) ≡ some (100 ∷ 47 ∷ 114 ∷ [])
unfolding last with_slash
full_path-append_example = full_path-append (100 ∷ []) (114 ∷ []) 100 refl (omega arith)
