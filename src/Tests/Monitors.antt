-- ===== src/Tests/Monitors.antt =====
-- Two events at once: another file of the directory was written, then the resource file "r.txt"; it now gives
-- the first client all of the time.
use gemini.Prelude.{ℕ, ◌<◌, ◌≡◌, arith, some, List, [], ◌∷◌, ◌++◌, name_eq}
use gemini.Prelude.Int.{pos}
use gemini.Double.{Fixed, fixed_double}
use gemini.Comm.Buffer.{zeros, to_bytes}
use gemini.Scheduler.Select.{Scheduler}
use gemini.Scheduler.Requests.{read_resource_config}
use gemini.Scheduler.Monitor.{
  Event, IsEvent, events_bytes, handle_read, reloads, handle_read-reloads,
}
use gemini.Tests.Schedulers.{first_name, tenths, busy}

abbrev written : ℕ → Event
written first = record {
  wd = 1;
  mask = 8;
  cookie = 0;
  name = first ∷ 46 ∷ 116 ∷ 120 ∷ 116 ∷ [];
  padding = 11;
}

abbrev events : List Event
events = written 97 ∷ written 114 ∷ []

written-IsEvent : (first : ℕ) → 0 < first → IsEvent (written first)
written-IsEvent first h = record {
  text = (h, (omega arith, (omega arith, (omega arith, (omega arith, tt)))));
  terminated = λ named. omega arith;
  mask_fits = omega arith;
  len_fits = omega arith;
}

abbrev reload : Scheduler Fixed → Scheduler Fixed
reload s = read_resource_config s (
    record {
      client_name = first_name;
      gpu_min_fraction = tenths 10;
      gpu_max_fraction = tenths 10;
      gpu_memory_size = 1000;
    }
    ∷ [])

handle_read-reloads_example :
    handle_read reload
      (114 ∷ 46 ∷ 116 ∷ 120 ∷ 116 ∷ [])
      (pos 64)
      (events_bytes events ++ 7 ∷ [])
      busy
    ≡ some (reload busy)
unfolding reloads zeros to_bytes read_resource_config name_eq
handle_read-reloads_example =
    handle_read-reloads reload (114 ∷ 46 ∷ 116 ∷ 120 ∷ 116 ∷ []) events (7 ∷ []) busy
      (written-IsEvent 97 (omega arith), (written-IsEvent 114 (omega arith), tt))
      (omega arith, (omega arith, (omega arith, (omega arith, (omega arith, tt)))))
