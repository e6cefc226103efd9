-- ===== src/Predictor/Comparison.antt =====
-- The two predictions of a `Predictor` against each other: each period and its merged period are recorded at
-- one time.
use gemini.Prelude.{
  ℕ, ◌-◌, ◌/◌, ◌≤◌, ◌<◌, ◌≡◌, refl, Bool-cases, inl, inr, false, Option, none, some, List, [], ◌∷◌,
  ◌++◌, arith, reject,
}
use gemini.Prelude.Int.{ℤ, pos}
use gemini.Double.{Double, IsOrdered, max_d}
use gemini.Predictor.RecordKeeper.{Timepoint, outdated, since, microseconds}
use gemini.Predictor.Defs.{predictor, duration, predict_unmerged, predict_merged}
use gemini.Predictor.Maxima.{longest, longest_from}
use gemini.Predictor.Clock.{clock_end}
use gemini.Predictor.Window.{fresh}
use gemini.Predictor.Tracker.{
  Call, stops, starts, interrupts, resets, predicts_unmerged, predicts_merged, bounds, Tracker,
  tracker, calls, track, tracks, merges, begins, ends,
}
use gemini.Predictor.Prediction.{
  Timed, Timed-le, keep_ms, predict_unmerged-calls, predict_merged-calls,
}

-- A period lies in its merged period, and both begin by the time `hi`.
abbrev Inside : ℕ → Option ℕ → Option (ℕ × Option ℕ) → Type 0
Inside hi (some b) (some (l, e)) = (l ≤ b) × (b ≤ hi)
Inside hi none (some (l, e)) = l ≤ hi
Inside hi _ none = Unit

Inside-later :
    (hi now : ℕ) (o : Option ℕ) (l : Option (ℕ × Option ℕ))
    → hi ≤ now
    → Inside hi o l
    → Inside now o l
Inside-later hi now (some b) (some (l, e)) le (h, k) = (h, omega arith)
Inside-later hi now none (some (l, e)) le h = omega arith
Inside-later hi now none none le h = tt
Inside-later hi now (some b) none le h = tt

-- The conversion of microseconds to milliseconds keeps the order.
abbrev pub OfUsRises : (D : Type 0) → ⦃d : Double D⦄ → Type 0
OfUsRises D ⦃d = d⦄ = (a b : ℕ) → a ≤ b → d.lt (d.of_us (pos b)) (d.of_us (pos a)) ≡ false

module _ {D : Type 0} ⦃d : Double D⦄ where
  -- Record by record at one time, and not shorter in the second list.
  abbrev Beside : List (Timepoint × D) → List (Timepoint × D) → Type 0
  Beside [] [] = Unit
  Beside (r ∷ rs) (s ∷ ss) = (r.0 ≡ s.0) × (d.lt s.1 r.1 ≡ false) × Beside rs ss
  Beside _ _ = ⊥

  Beside-snoc :
      (rs ss : List (Timepoint × D)) (t : Timepoint) (x y : D)
      → Beside rs ss
      → d.lt y x ≡ false
      → Beside (rs ++ (t, x) ∷ []) (ss ++ (t, y) ∷ [])
  Beside-snoc [] [] t x y h le = (refl, le, tt)
  Beside-snoc (r ∷ rs) (s ∷ ss) t x y (e, h, hs) le = (e, h, Beside-snoc rs ss t x y hs le)
  Beside-snoc [] (s ∷ ss) t x y h le = absurd h
  Beside-snoc (r ∷ rs) [] t x y h le = absurd h

  outdated_alike :
      (v : ℤ) (now : Timepoint) (r s : Timepoint × D)
      → r.0 ≡ s.0
      → outdated v now r ≡ outdated v now s
  unfolding outdated
  outdated_alike v now r s e = rw e refl

  Beside-fresh :
      (v now : ℕ) (rs ss : List (Timepoint × D))
      → Beside rs ss
      → Beside (fresh v now rs) (fresh v now ss)
  unfolding fresh reject
  Beside-fresh v now [] [] h = tt
  Beside-fresh v now (r ∷ rs) (s ∷ ss) (e, h, hs) =
      elim (Bool-cases (outdated (pos v) (pos now) s)) [
        | inl old ↦ rw (outdated_alike (pos v) (pos now) r s e, old) (Beside-fresh v now rs ss hs)
        | inr new ↦
            rw (outdated_alike (pos v) (pos now) r s e, new) (e, h, Beside-fresh v now rs ss hs)
      ]
  Beside-fresh v now [] (s ∷ ss) h = absurd h
  Beside-fresh v now (r ∷ rs) [] h = absurd h

  record IsPaired (hi : ℕ) (t : Tracker D) : Type 0 where
    inside : Inside hi t.period t.long_period
    beside : Beside t.bursts t.long_bursts

  Inside-merges :
      (thres : D) (hi now : ℕ) (l : Option (ℕ × Option ℕ))
      → hi ≤ now
      → Inside hi none l
      → Inside now (some now) (merges thres now l)
  Inside-merges thres hi now none le h = (omega arith, omega arith)
  Inside-merges thres hi now (some (l, none)) le h = (omega arith, omega arith)
  Inside-merges thres hi now (some (l, some e)) le h =
      elim (Bool-cases (d.lt thres (duration (pos now) (pos e)))) [
        | inl apart ↦ rw apart (omega arith, omega arith)
        | inr near ↦ rw near (omega arith, omega arith)
      ]

  later-IsPaired : (hi now : ℕ) (t : Tracker D) → hi ≤ now → IsPaired hi t → IsPaired now t
  later-IsPaired hi now t le h = record {
    inside = Inside-later hi now t.period t.long_period le h.inside;
    beside = h.beside;
  }

  module _ (laws : IsOrdered D) (rises : OfUsRises D) where
    open laws use {lt_trans, lt_split}

    longest_from-Beside :
        (m n : D) (rs ss : List (Timepoint × D))
        → d.lt n m ≡ false
        → Beside rs ss
        → d.lt (longest_from n ss) (longest_from m rs) ≡ false
    unfolding longest_from
    longest_from-Beside m n [] [] le h = le
    longest_from-Beside m n (r ∷ rs) (s ∷ ss) le (e, h, hs) =
        longest_from-Beside (max_d m r.1) (max_d n s.1) rs ss
          (ground (arith, lt_trans n s.1 m, lt_split n s.1 r.1)) hs
    longest_from-Beside m n [] (s ∷ ss) le h = absurd h
    longest_from-Beside m n (r ∷ rs) [] le h = absurd h

    longest-Beside :
        (rs ss : List (Timepoint × D)) → Beside rs ss → d.lt (longest ss) (longest rs) ≡ false
    unfolding longest
    longest-Beside [] [] h = laws.lt_irrefl (d.lit 0 1)
    longest-Beside (r ∷ rs) (s ∷ ss) (e, h, hs) = longest_from-Beside r.1 s.1 rs ss h hs
    longest-Beside [] (s ∷ ss) h = absurd h
    longest-Beside (r ∷ rs) [] h = absurd h

    since_us :
        (now b : ℕ)
        → b ≤ now
        → now < clock_end
        → microseconds (since (pos now) (pos b)) ≡ pos ((now - b) / 1000)
    unfolding since
    since_us now b le lt = ground arith

    duration_le :
        (now b l : ℕ)
        → l ≤ b
        → b ≤ now
        → now < clock_end
        → d.lt (duration (pos now) (pos l)) (duration (pos now) (pos b)) ≡ false
    unfolding duration
    duration_le now b l le le' lt =
        rw (duration, since_us now b le' lt, since_us now l (omega arith) lt)
          (rises ((now - b) / 1000) ((now - l) / 1000) (omega arith))

    module _ (thres : D) where
      ends-IsPaired :
          (hi now : ℕ) (t : Tracker D) (o : Option ℕ) (l : Option (ℕ × Option ℕ))
          → hi ≤ now
          → now < clock_end
          → Inside hi o l
          → IsPaired hi t
          → IsPaired now (ends t now o l)
      ends-IsPaired hi now t (some b) (some (l, e)) le lt (i, i') h = record {
        inside = omega arith;
        beside =
            Beside-snoc t.bursts t.long_bursts (pos now) (duration (pos now) (pos b))
              (duration (pos now) (pos l)) h.beside (duration_le now b l i (omega arith) lt);
      }
      ends-IsPaired hi now t (some b) none le lt i h = later-IsPaired hi now t le h
      ends-IsPaired hi now t none l le lt i h = later-IsPaired hi now t le h

      begins-IsPaired :
          (hi now : ℕ) (t : Tracker D) (o : Option ℕ)
          → hi ≤ now
          → Inside hi o t.long_period
          → IsPaired hi t
          → IsPaired now (begins thres t now o)
      begins-IsPaired hi now t none le i h = record {
        inside = Inside-merges thres hi now t.long_period le i;
        beside = h.beside;
      }
      begins-IsPaired hi now t (some b) le i h = later-IsPaired hi now t le h

      track-IsPaired :
          (hi now : ℕ) (c : Call D) (t : Tracker D)
          → hi ≤ now
          → now < clock_end
          → IsPaired hi t
          → IsPaired now (track thres t (now, c))
      unfolding track
      track-IsPaired hi now stops t le lt h =
          ends-IsPaired hi now t t.period t.long_period le lt h.inside h
      track-IsPaired hi now starts t le lt h = begins-IsPaired hi now t t.period le h.inside h
      track-IsPaired hi now interrupts t le lt h = record { inside = tt; beside = h.beside }
      track-IsPaired hi now resets t le lt h = record { inside = tt; beside = tt }
      track-IsPaired hi now predicts_unmerged t le lt h = later-IsPaired hi now t le h
      track-IsPaired hi now predicts_merged t le lt h = later-IsPaired hi now t le h
      track-IsPaired hi now (bounds b) t le lt h = later-IsPaired hi now t le h

      tracks-Beside :
          (lo hi : ℕ) (cs : List (ℕ × Call D)) (t : Tracker D)
          → hi < clock_end
          → Timed lo hi cs
          → IsPaired lo t
          → Beside (tracks thres t cs).bursts (tracks thres t cs).long_bursts
      unfolding tracks
      tracks-Beside lo hi [] t lt timed h = h.beside
      tracks-Beside lo hi ((now, c) ∷ cs) t lt (le, timed) h =
          let before : now < clock_end = omega (arith, Timed-le now hi cs timed) in
          tracks-Beside now hi cs (track thres t (now, c)) lt timed
            (track-IsPaired lo now c t le before h)

      -- After any calls at clock readings that do not fall, the prediction of merged periods is not below that
      -- of single ones, if the conversion of microseconds keeps the order.
      pub predict_merged-predict_unmerged :
          (double_max : D) (cs : List (ℕ × Call D)) (now : ℕ)
          → Timed 0 now cs
          → now < clock_end
          → let p = calls (predictor thres double_max) cs in
            d.lt (predict_merged p (pos now)).0 (predict_unmerged p (pos now)).0 ≡ false
      predict_merged-predict_unmerged double_max cs now timed lt =
          rw
            (
              predict_merged-calls laws thres double_max cs now timed lt,
              predict_unmerged-calls laws thres double_max cs now timed lt,
            )
            (longest-Beside (fresh keep_ms now t.bursts) (fresh keep_ms now t.long_bursts) (
              Beside-fresh keep_ms now t.bursts t.long_bursts
                (tracks-Beside 0 now cs tracker lt timed record { inside = tt; beside = tt })))
        where
          t : Tracker D
          t = tracks thres tracker cs
