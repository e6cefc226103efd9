-- ===== src/Predictor/Tracker.antt =====
-- What the methods of `Predictor` are to measure: a tracker with no sentinels, no deque and no
-- forgetting.
use gemini.Prelude.{ℕ, Option, none, some, List, [], ◌∷◌, ◌++◌, if◌then◌else◌}
use gemini.Prelude.Int.{pos}
use gemini.Double.{Double}
use gemini.Predictor.RecordKeeper.{Timepoint}
use gemini.Predictor.Defs.{
  Predictor, duration, record_stop, record_start, interrupt, predict_unmerged, predict_merged,
  set_upperbound, reset,
}

-- The calls of the methods that change a predictor.
pub data Call (D : Type 0) : Type 0 where
  stops starts interrupts resets predicts_unmerged predicts_merged : Call D
  bounds : D → Call D

-- The period that runs, the merged period with the end of its last part, and all lengths so far.
pub record Tracker (D : Type 0) : Type 0 where
  pub period : Option ℕ
  pub long_period : Option (ℕ × Option ℕ)
  pub bursts : List (Timepoint × D)
  pub long_bursts : List (Timepoint × D)

abbrev pub tracker : {D : Type 0} → Tracker D
tracker = record { period = none; long_period = none; bursts = []; long_bursts = [] }

module _ {D : Type 0} ⦃d : Double D⦄ where
  unfoldable pub call : Predictor D → ℕ × Call D → Predictor D
  call p (now, stops) = record_stop p (pos now)
  call p (now, starts) = record_start p (pos now)
  call p (now, interrupts) = interrupt p
  call p (now, resets) = reset p
  call p (now, predicts_unmerged) = (predict_unmerged p (pos now)).1
  call p (now, predicts_merged) = (predict_merged p (pos now)).1
  call p (now, bounds b) = set_upperbound p b

  unfoldable pub calls : Predictor D → List (ℕ × Call D) → Predictor D
  calls p [] = p
  calls p (c ∷ cs) = calls (call p c) cs

  abbrev pub length_at : ℕ → ℕ → Timepoint × D
  length_at now begin = (pos now, duration (pos now) (pos begin))

  abbrev pub ends : Tracker D → ℕ → Option ℕ → Option (ℕ × Option ℕ) → Tracker D
  ends t now (some b) (some (l, e)) = record t {
    period = none;
    long_period = some (l, some now);
    bursts = t.bursts ++ length_at now b ∷ [];
    long_bursts = t.long_bursts ++ length_at now l ∷ [];
  }
  ends t now _ _ = t

  -- A merged period goes on if the pause since its last part is at most the threshold.
  abbrev pub merges : D → ℕ → Option (ℕ × Option ℕ) → Option (ℕ × Option ℕ)
  merges thres now (some (l, some e)) =
      if d.lt thres (duration (pos now) (pos e)) then some (now, none) else some (l, some e)
  merges thres now _ = some (now, none)

  abbrev pub begins : D → Tracker D → ℕ → Option ℕ → Tracker D
  begins thres t now none = record t {
    period = some now;
    long_period = merges thres now t.long_period;
  }
  begins thres t now (some b) = t

  -- The same calls on the tracker; `thres` is the merge threshold.
  unfoldable pub track : D → Tracker D → ℕ × Call D → Tracker D
  track thres t (now, stops) = ends t now t.period t.long_period
  track thres t (now, starts) = begins thres t now t.period
  track thres t (now, interrupts) = record t { period = none; long_period = none }
  track thres t (now, resets) = tracker
  track thres t (now, _) = t

  unfoldable pub tracks : D → Tracker D → List (ℕ × Call D) → Tracker D
  unfolding track
  tracks thres t [] = t
  tracks thres t (c ∷ cs) = tracks thres (track thres t c) cs
