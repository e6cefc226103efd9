-- ===== src/Predictor/Prediction.antt =====
-- What the predictions of a predictor are, after any calls of its methods.
use gemini.Prelude.{ℕ, ◌≤◌, ◌<◌, ◌≡◌, refl, List, [], ◌∷◌, arith}
use gemini.Prelude.Int.{pos}
use gemini.Double.{Double, IsOrdered}
use gemini.Predictor.Defs.{Predictor, predictor, predict_unmerged, predict_merged}
use gemini.Predictor.Maxima.{longest}
use gemini.Predictor.Clock.{clock_end}
use gemini.Predictor.Window.{fresh, Kept-empty, Kept-later, get_max-drop_outdated}
use gemini.Predictor.Tracker.{Call, Tracker, tracker, call, calls, track, tracks}
use gemini.Predictor.Simulation.{Tracks, call-Tracks-later}

-- The clock's readings do not fall from `lo` up to `hi`.
abbrev pub Timed : {D : Type 0} → ℕ → ℕ → List (ℕ × Call D) → Type 0
Timed lo hi [] = lo ≤ hi
Timed lo hi (c ∷ cs) = (lo ≤ c.0) × Timed c.0 hi cs

-- `predict_max_keep` as a number.
abbrev pub keep_ms : ℕ
keep_ms = 3000

pub Timed-le : {D : Type 0} (lo hi : ℕ) (cs : List (ℕ × Call D)) → Timed lo hi cs → lo ≤ hi
Timed-le lo hi [] h = h
Timed-le lo hi (c ∷ cs) (le, h) = omega (arith, Timed-le c.0 hi cs h)

module _ {D : Type 0} ⦃d : Double D⦄ where
  predictor-Tracks :
      (thres double_max : D) → Tracks keep_ms thres 0 tracker (predictor thres double_max)
  unfolding predictor
  predictor-Tracks thres double_max = record {
    thres_eq = refl;
    period_rep = refl;
    long_rep = (refl, refl);
    fit = tt;
    bursts_rep = Kept-empty keep_ms 0 _ refl refl;
    long_bursts_rep = Kept-empty keep_ms 0 _ refl refl;
  }

  module _ (laws : IsOrdered D) (thres : D) where
    calls-Tracks :
        (lo hi : ℕ) (cs : List (ℕ × Call D)) (t : Tracker D) (p : Predictor D)
        → hi < clock_end
        → Timed lo hi cs
        → Tracks keep_ms thres lo t p
        → (last : ℕ) × (last ≤ hi) × Tracks keep_ms thres last (tracks thres t cs) (calls p cs)
    unfolding calls tracks
    calls-Tracks lo hi [] t p lt h r = (lo, h, r)
    calls-Tracks lo hi ((now, c) ∷ cs) t p lt (le, h) r =
        let before : now < clock_end = omega (arith, Timed-le now hi cs h) in
        calls-Tracks now hi cs (track thres t (now, c)) (call p (now, c)) lt h
          (call-Tracks-later laws keep_ms thres now before lo c le r)

    -- After any calls at clock readings that do not fall, `predict_unmerged` gives the longest of the
    -- periods that were completed at most three seconds (of whole milliseconds) ago, or 0.
    pub predict_unmerged-calls :
        (double_max : D) (cs : List (ℕ × Call D)) (now : ℕ)
        → Timed 0 now cs
        → now < clock_end
        → (predict_unmerged (calls (predictor thres double_max) cs) (pos now)).0
          ≡ longest (fresh keep_ms now (tracks thres tracker cs).bursts)
    unfolding predict_unmerged
    predict_unmerged-calls double_max cs now timed lt =
        let (last, le, r) =
          calls-Tracks 0 now cs tracker _ lt timed (predictor-Tracks thres double_max) in
        get_max-drop_outdated laws keep_ms now lt (Kept-later keep_ms last now le lt r.bursts_rep)

    -- And `predict_merged` gives the longest of the merged periods, each measured up to the end of
    -- every period in it, that such a period completed at most three seconds ago, or 0.
    pub predict_merged-calls :
        (double_max : D) (cs : List (ℕ × Call D)) (now : ℕ)
        → Timed 0 now cs
        → now < clock_end
        → (predict_merged (calls (predictor thres double_max) cs) (pos now)).0
          ≡ longest (fresh keep_ms now (tracks thres tracker cs).long_bursts)
    unfolding predict_merged
    predict_merged-calls double_max cs now timed lt =
        let (last, le, r) =
          calls-Tracks 0 now cs tracker _ lt timed (predictor-Tracks thres double_max) in
        get_max-drop_outdated laws keep_ms now lt
          (Kept-later keep_ms last now le lt r.long_bursts_rep)
