-- ===== src/Predictor/Simulation.antt =====
-- `Predictor` simulates the tracker.
use gemini.Prelude.{
  ℕ, ◌≤◌, ◌<◌, ◌≡◌, refl, ◌∙◌, not, true, false, inl, inr, Bool-cases, Option, none, some, arith,
}
use gemini.Prelude.Int.{pos, eqb_ℤ}
use gemini.Double.{Double, IsOrdered}
use gemini.Predictor.RecordKeeper.{Timepoint, timepoint_max, timepoint_min}
use gemini.Predictor.Defs.{
  Predictor, duration, record_stop, record_start, interrupt, predict_unmerged, predict_merged,
  set_upperbound, reset,
}
use gemini.Predictor.Clock.{clock_end}
use gemini.Predictor.Window.{Kept, Kept-later, Kept-clear, Kept-add, Kept-drop_outdated}
use gemini.Predictor.Tracker.{
  Call, stops, starts, interrupts, resets, predicts_unmerged, predicts_merged, bounds, Tracker,
  call, begins, ends, merges, track,
}

abbrev IsPeriod : ℕ → Option ℕ → Timepoint → Type 0
IsPeriod hi none b = b ≡ timepoint_max
IsPeriod hi (some n) b = (b ≡ pos n) × (n ≤ hi)

abbrev IsEnd : Option ℕ → Timepoint → Type 0
IsEnd none e = e ≡ timepoint_min
IsEnd (some n) e = e ≡ pos n

abbrev IsLong : ℕ → Option (ℕ × Option ℕ) → Timepoint → Timepoint → Type 0
IsLong hi none b e = (b ≡ timepoint_max) × (e ≡ timepoint_min)
IsLong hi (some (n, m)) b e = (b ≡ pos n) × (n ≤ hi) × IsEnd m e

-- Outside a period a merged period has an end; inside one there is a merged period.
abbrev Fit : Option ℕ → Option (ℕ × Option ℕ) → Type 0
Fit none (some (l, none)) = ⊥
Fit (some b) none = ⊥
Fit _ _ = Unit {0}

IsPeriod-later :
    (hi now : ℕ) (o : Option ℕ) (b : Timepoint) → hi ≤ now → IsPeriod hi o b → IsPeriod now o b
IsPeriod-later hi now none b le h = h
IsPeriod-later hi now (some n) b le (e, h) = (e, omega arith)

IsLong-later :
    (hi now : ℕ) (o : Option (ℕ × Option ℕ)) (b e : Timepoint)
    → hi ≤ now
    → IsLong hi o b e
    → IsLong now o b e
IsLong-later hi now none b e le h = h
IsLong-later hi now (some (n, m)) b e le (h, h', h'') = (h, omega arith, h'')

module _ {D : Type 0} ⦃d : Double D⦄ where
  -- The predictor represents the tracker at the time `hi`.
  pub record Tracks (v : ℕ) (thres : D) (hi : ℕ) (t : Tracker D) (p : Predictor D) : Type 0 where
    pub thres_eq : p.merge_thres ≡ thres
    pub period_rep : IsPeriod hi t.period p.period_begin
    pub long_rep : IsLong hi t.long_period p.long_period_begin p.long_period_end
    pub fit : Fit t.period t.long_period
    pub bursts_rep : Kept v hi t.bursts p.normal_records
    pub long_bursts_rep : Kept v hi t.long_bursts p.long_records

  module _ (laws : IsOrdered D) (v : ℕ) (thres : D) (now : ℕ) (lt : now < clock_end) where
    Tracks-later :
        (hi : ℕ) {t : Tracker D} {p : Predictor D}
        → hi ≤ now
        → Tracks v thres hi t p
        → Tracks v thres now t p
    Tracks-later hi {t} {p} le h = record {
      thres_eq = h.thres_eq;
      period_rep = IsPeriod-later hi now t.period p.period_begin le h.period_rep;
      long_rep = IsLong-later hi now t.long_period _ p.long_period_end le h.long_rep;
      fit = h.fit;
      bursts_rep = Kept-later v hi now le lt h.bursts_rep;
      long_bursts_rep = Kept-later v hi now le lt h.long_bursts_rep;
    }

    -- Which branch the tests of the sentinels take.
    begun : (n : ℕ) (b : Timepoint) → (b ≡ pos n) × (n ≤ now) → not (eqb_ℤ b timepoint_max) ≡ true
    begun n b (e, le) = rw e (ground arith)

    idle : (b : Timepoint) → b ≡ timepoint_max → not (eqb_ℤ b timepoint_max) ≡ false
    idle b e = rw e

    stop-Tracks :
        (o : Option ℕ) (l : Option (ℕ × Option ℕ)) {t : Tracker D} {p : Predictor D}
        → t.period ≡ o
        → t.long_period ≡ l
        → Tracks v thres now t p
        → Tracks v thres now (ends t now o l) (record_stop p (pos now))
    unfolding record_stop
    stop-Tracks (some b) (some (l, m)) {t} {p} eo el h =
        let per : IsPeriod now (some b) p.period_begin = rw eo at h.period_rep in
        let lng : IsLong now (some (l, m)) p.long_period_begin p.long_period_end =
          rw el at h.long_rep in
        rw (begun b p.period_begin per, record_stop)
          (record {
            thres_eq = h.thres_eq;
            period_rep = refl;
            long_rep = (lng.0, lng.1, refl);
            fit = tt;
            bursts_rep = rw per.0 (Kept-add laws v now _ h.bursts_rep);
            long_bursts_rep = rw lng.0 (Kept-add laws v now _ h.long_bursts_rep);
          })
    stop-Tracks none l {t} {p} eo el h =
        let per : IsPeriod now none p.period_begin = rw eo at h.period_rep in
        rw (idle p.period_begin per, record_stop)
          (record {
            thres_eq = h.thres_eq;
            period_rep = rw eo;
            long_rep = h.long_rep;
            fit = h.fit;
            bursts_rep = h.bursts_rep;
            long_bursts_rep = h.long_bursts_rep;
          })
    stop-Tracks (some b) none {t} {p} eo el h = absurd (rw (eo, el) at h.fit)

    -- A period begins, and a merged period with it.
    begin_both :
        {t : Tracker D} {p : Predictor D} (l : Option (ℕ × Option ℕ))
        → l ≡ some (now, none)
        → Tracks v thres now t p
        → Tracks v thres now
            (record t { period = some now; long_period = l })
            (record p {
              period_begin = pos now;
              long_period_begin = pos now;
              long_period_end = timepoint_min;
            })
    begin_both l e h = record {
      thres_eq = h.thres_eq;
      period_rep = (refl, omega arith);
      long_rep = rw e (refl, omega arith, refl);
      fit = rw e tt;
      bursts_rep = h.bursts_rep;
      long_bursts_rep = h.long_bursts_rep;
    }

    -- A period begins in the merged period `l`, whose last part ended at `e`.
    begin_within :
        (o : Option (ℕ × Option ℕ)) (l e : ℕ) {t : Tracker D} {p : Predictor D}
        → o ≡ some (l, some e)
        → IsLong now o p.long_period_begin p.long_period_end
        → Tracks v thres now t p
        → Tracks v thres now
            (record t { period = some now; long_period = o })
            (record p { period_begin = pos now })
    begin_within o l e q lng h = record {
      thres_eq = h.thres_eq;
      period_rep = (refl, omega arith);
      long_rep = lng;
      fit = rw q tt;
      bursts_rep = h.bursts_rep;
      long_bursts_rep = h.long_bursts_rep;
    }

    start-Tracks :
        (o : Option ℕ) (l : Option (ℕ × Option ℕ)) {t : Tracker D} {p : Predictor D}
        → t.period ≡ o
        → t.long_period ≡ l
        → Tracks v thres now t p
        → Tracks v thres now (begins thres t now o) (record_start p (pos now))
    unfolding record_start
    start-Tracks (some b) l {t} {p} eo el h =
        let per : IsPeriod now (some b) p.period_begin = rw eo at h.period_rep in
        rw (begun b p.period_begin per, record_start) h
    start-Tracks none none {t} {p} eo el h =
        let per : IsPeriod now none p.period_begin = rw eo at h.period_rep in
        let lng : IsLong now none p.long_period_begin p.long_period_end = rw el at h.long_rep in
        rw (idle p.period_begin per, idle p.long_period_begin lng.0, record_start)
          (begin_both (merges thres now t.long_period) (rw el) h)
    start-Tracks none (some (l, none)) {t} {p} eo el h = absurd (rw (eo, el) at h.fit)
    start-Tracks none (some (l, some e)) {t} {p} eo el h =
        let per : IsPeriod now none p.period_begin = rw eo at h.period_rep in
        let lng : IsLong now (some (l, some e)) p.long_period_begin p.long_period_end =
          rw el at h.long_rep in
        let e_eq : IsEnd (some e) p.long_period_end = lng.2 in
        let test : d.lt p.merge_thres (duration (pos now) p.long_period_end)
            ≡ d.lt thres (duration (pos now) (pos e)) =
          rw (h.thres_eq, e_eq) in
        let on = begun l p.long_period_begin (lng.0, lng.1) in
        elim (Bool-cases (d.lt thres (duration (pos now) (pos e)))) [
          | inl apart ↦
              rw (idle p.period_begin per, on, test ∙ apart, record_start)
                (begin_both (merges thres now t.long_period) (rw (el, apart)) h)
          | inr near ↦
              rw (idle p.period_begin per, on, test ∙ near, record_start)
                (begin_within (merges thres now t.long_period) l e (rw (el, near))
                  (rw (el, near) lng) h)
        ]

    call-Tracks :
        (c : Call D) (t : Tracker D) (p : Predictor D)
        → Tracks v thres now t p
        → Tracks v thres now (track thres t (now, c)) (call p (now, c))
    unfolding call track interrupt reset predict_unmerged predict_merged set_upperbound
    call-Tracks stops t p h = stop-Tracks t.period t.long_period refl refl h
    call-Tracks starts t p h = start-Tracks t.period t.long_period refl refl h
    call-Tracks interrupts t p h = record {
      thres_eq = h.thres_eq;
      period_rep = refl;
      long_rep = (refl, refl);
      fit = tt;
      bursts_rep = h.bursts_rep;
      long_bursts_rep = h.long_bursts_rep;
    }
    call-Tracks resets t p h = record {
      thres_eq = h.thres_eq;
      period_rep = refl;
      long_rep = (refl, refl);
      fit = tt;
      bursts_rep = Kept-clear v now h.bursts_rep;
      long_bursts_rep = Kept-clear v now h.long_bursts_rep;
    }
    call-Tracks predicts_unmerged t p h = record {
      thres_eq = h.thres_eq;
      period_rep = h.period_rep;
      long_rep = h.long_rep;
      fit = h.fit;
      bursts_rep = Kept-drop_outdated v now lt h.bursts_rep;
      long_bursts_rep = h.long_bursts_rep;
    }
    call-Tracks predicts_merged t p h = record {
      thres_eq = h.thres_eq;
      period_rep = h.period_rep;
      long_rep = h.long_rep;
      fit = h.fit;
      bursts_rep = h.bursts_rep;
      long_bursts_rep = Kept-drop_outdated v now lt h.long_bursts_rep;
    }
    call-Tracks (bounds b) t p h = record {
      thres_eq = h.thres_eq;
      period_rep = h.period_rep;
      long_rep = h.long_rep;
      fit = h.fit;
      bursts_rep = h.bursts_rep;
      long_bursts_rep = h.long_bursts_rep;
    }

    -- Every call on the predictor is the same call on the tracker.
    pub call-Tracks-later :
        (hi : ℕ) (c : Call D) {t : Tracker D} {p : Predictor D}
        → hi ≤ now
        → Tracks v thres hi t p
        → Tracks v thres now (track thres t (now, c)) (call p (now, c))
    call-Tracks-later hi c {t} {p} le h = call-Tracks c t p (Tracks-later hi le h)
