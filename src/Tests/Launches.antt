-- ===== src/Tests/Launches.antt =====
-- Launches of a process whose first token has no quota.
use gemini.Prelude.{ℕ, ◌*◌, ◌^◌, ◌≡◌, refl, true, false, none, some, [], ◌∷◌, All, pop_front_while}
use gemini.Prelude.Int.{pos}
use gemini.Double.{Fixed, fixed_double, ms}
use gemini.Predictor.Defs.{predictor, record_stop, record_start, predict_unmerged, predict_merged}
use gemini.Predictor.RecordKeeper.{drop_outdated, get_max}
use gemini.Deadline.{Timespec}
use gemini.Hook.Launch.{
  Launcher, Readings, check_quota, may_overuse, renew_token, estimate_full_burst, us_since, launch,
  launches, new_quota,
}
use gemini.Hook.Tokens.{IsReading, token, launches-first, launch-token}

abbrev at_sec : ℕ → Timespec
at_sec n = record { tv_sec = pos n; tv_nsec = pos 0 }

-- A launch at that second.
abbrev readings : ℕ → Readings Fixed
readings n =
    let now = pos (n * 10 ^ 9) in
    record {
      window_stopped = now;
      elapsed = at_sec n;
      predicted = now;
      merged_burst = now;
      merged_window = now;
      synced = now;
      window_started = now;
      elapsed_ms = ms 3;
      requested = at_sec n;
      burst_started = now;
    }

abbrev started : Launcher Fixed
started = record {
  burst_predictor = predictor (ms 2) (ms 100000);
  window_predictor = predictor (ms 0) (ms 100000);
  quota_time = ms 0;
  request_start = at_sec 0;
  overuse = ms 0;
  overuse_trk_cmpl = true;
}

first_request : (launch (readings 1) started).0 ≡ some (ms 0)
unfolding launch check_quota may_overuse renew_token estimate_full_burst us_since record_stop
    record_start predict_unmerged predict_merged predictor drop_outdated get_max pop_front_while
first_request = refl

launches-first_example :
    All
      (λ request. request ≡ none)
      (launches (readings 2 ∷ readings 3 ∷ []) (launch (readings 1) started).1).0
unfolding IsReading
launches-first_example =
    launches-first (readings 1) (readings 2 ∷ readings 3 ∷ []) started (refl, (refl, (refl, tt)))

token_of_one_launch : token (launch (readings 1) started).1 ≡ (new_quota, at_sec 1, false)
unfolding launch check_quota may_overuse renew_token estimate_full_burst us_since record_stop
    record_start predict_unmerged predict_merged predictor drop_outdated get_max pop_front_while
token_of_one_launch = launch-token (readings 1) started
