-- ===== src/Tests/Configs.antt =====
-- The resource file is read again, with two lines for the first client and one for a third.
use gemini.Prelude.{ℕ, ◌≡◌, refl, some, List, [], ◌∷◌, Name, name_eq}
use gemini.Double.{Fixed, fixed_double}
use gemini.Scheduler.Select.{find_client}
use gemini.Scheduler.Requests.{Line, read_resource_config, read_line, put_client}
use gemini.Scheduler.Config.{last_line, configured, fresh, find_client-read_resource_config}
use gemini.Tests.Schedulers.{first_name, second_name, tenths, client, busy}

abbrev line : Name → ℕ → Line Fixed
line n limit = record {
  client_name = n;
  gpu_min_fraction = tenths 2;
  gpu_max_fraction = tenths 5;
  gpu_memory_size = limit;
}

abbrev file : List (Line Fixed)
file = line first_name 300 ∷ line (3 ∷ []) 200 ∷ line first_name 400 ∷ []

find_client-read_resource_config_example :
    (find_client first_name (read_resource_config busy file).client_info_map
      ≡ configured busy (find_client first_name busy.client_info_map) (last_line first_name file))
    × (read_resource_config busy file
        ≡ record busy { client_info_map = (read_resource_config busy file).client_info_map })
find_client-read_resource_config_example = find_client-read_resource_config first_name file busy

last_line_wins :
    find_client first_name (read_resource_config busy file).client_info_map
    ≡ some (fresh busy (line first_name 400))
unfolding read_resource_config read_line put_client find_client name_eq
last_line_wins = refl

-- A client that is no longer in the file keeps its settings.
removed_line_stays :
    find_client second_name (read_resource_config busy file).client_info_map
    ≡ some (client second_name)
unfolding read_resource_config read_line put_client find_client name_eq
removed_line_stays = refl
