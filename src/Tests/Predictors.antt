-- ===== src/Tests/Predictors.antt =====
-- Two bursts of 5 ms and 2 ms with a pause of 1 ms, which a threshold of 2 ms merges.
use gemini.Prelude.{
  ℕ, ◌*◌, ◌^◌, ◌≡◌, refl, false, List, [], ◌∷◌, arith, reject, pop_front_while, pop_back_while,
}
use gemini.Prelude.Int.{pos, ltb_ℤ}
use gemini.Double.{Fixed, fixed_double, Fixed-IsOrdered, ms}
use gemini.Predictor.RecordKeeper.{add, drop_outdated, get_max, outdated}
use gemini.Predictor.Defs.{
  predictor, duration, record_stop, record_start, predict_unmerged, predict_merged,
}
use gemini.Predictor.Maxima.{longest}
use gemini.Predictor.Window.{fresh}
use gemini.Predictor.Tracker.{Call, starts, stops, call, calls, track, tracks}
use gemini.Predictor.Comparison.{OfUsRises, predict_merged-predict_unmerged}
use gemini.Predictor.Prediction.{predict_unmerged-calls, predict_merged-calls}

abbrev at_ms : ℕ → ℕ
at_ms n = n * 10 ^ 6

abbrev two_bursts : List (ℕ × Call Fixed)
two_bursts = (at_ms 1, starts) ∷ (at_ms 6, stops) ∷ (at_ms 7, starts) ∷ (at_ms 9, stops) ∷ []

-- The first burst is out of the window when the second is still in it.
late_prediction :
    (predict_unmerged (calls (predictor (ms 2) (ms 1000)) two_bursts) (pos (at_ms 3008))).0 ≡ ms 2
unfolding predict_unmerged calls call predictor record_start record_stop duration add drop_outdated
    get_max outdated pop_front_while pop_back_while
late_prediction = refl

predict_unmerged-calls_example :
    (predict_unmerged (calls (predictor (ms 2) (ms 1000)) two_bursts) (pos (at_ms 10))).0 ≡ ms 5
unfolding tracks track duration fresh reject outdated longest
predict_unmerged-calls_example =
    predict_unmerged-calls Fixed-IsOrdered (ms 2) (ms 1000) two_bursts (at_ms 10) (omega arith)
      (omega arith)

merged_prediction :
    (predict_merged (calls (predictor (ms 2) (ms 1000)) two_bursts) (pos (at_ms 10))).0 ≡ ms 8
unfolding tracks track duration fresh reject outdated longest
merged_prediction =
    predict_merged-calls Fixed-IsOrdered (ms 2) (ms 1000) two_bursts (at_ms 10) (omega arith)
      (omega arith)

of_us_rises : OfUsRises Fixed
of_us_rises a b h = ground arith

predict_merged-predict_unmerged_example :
    ltb_ℤ
      (predict_merged (calls (predictor (ms 2) (ms 1000)) two_bursts) (pos (at_ms 10))).0.units
      (predict_unmerged (calls (predictor (ms 2) (ms 1000)) two_bursts) (pos (at_ms 10))).0.units
    ≡ false
predict_merged-predict_unmerged_example =
    predict_merged-predict_unmerged Fixed-IsOrdered of_us_rises (ms 2) (ms 1000) two_bursts
      (at_ms 10) (omega arith) (omega arith)
