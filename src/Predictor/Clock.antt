-- ===== src/Predictor/Clock.antt =====
-- Records in the order of their time points, and which of them are outdated as the clock goes on.
use gemini.Prelude.{
  ℕ, ◌-◌, ◌/◌, ◌^◌, ◌≤◌, ◌<◌, ◌≡◌, refl, true, false, List, [], ◌∷◌, ◌++◌, arith, ltb, All,
}
use gemini.Prelude.Int.{pos, negsuc, pos_part}
use gemini.Predictor.RecordKeeper.{Timepoint, outdated}
use gemini.Predictor.Maxima.{OldFirst}

-- The readings of the steady clock: nanoseconds, below the largest time point.
abbrev pub clock_end : ℕ
clock_end = 2 ^ 63 - 1

module _ {D : Type 0} where
  -- The time points rise from `lo` up to `hi`.
  abbrev pub Rising : ℕ → ℕ → List (Timepoint × D) → Type 0
  Rising lo hi [] = lo ≤ hi
  Rising lo hi (r ∷ rs) =
      (r.0 ≡ pos (pos_part r.0)) × (lo ≤ pos_part r.0) × Rising (pos_part r.0) hi rs

  Rising-le : (lo hi : ℕ) (rs : List (Timepoint × D)) → Rising lo hi rs → lo ≤ hi
  Rising-le lo hi [] h = h
  Rising-le lo hi (r ∷ rs) (e, le, h) = omega (arith, Rising-le (pos_part r.0) hi rs h)

  pub Rising-later :
      (lo hi now : ℕ) (rs : List (Timepoint × D)) → hi ≤ now → Rising lo hi rs → Rising lo now rs
  Rising-later lo hi now [] le h = omega arith
  Rising-later lo hi now (r ∷ rs) le (e, le', h) =
      (e, le', Rising-later (pos_part r.0) hi now rs le h)

  pub Rising-snoc :
      (lo hi now : ℕ) (x : D) (rs : List (Timepoint × D))
      → hi ≤ now
      → Rising lo hi rs
      → Rising lo now (rs ++ (pos now, x) ∷ [])
  Rising-snoc lo hi now x [] le h = (refl, omega arith, omega arith)
  Rising-snoc lo hi now x (r ∷ rs) le (e, le', h) =
      (e, le', Rising-snoc (pos_part r.0) hi now x rs le h)

  Rising-earlier :
      (lo lo' hi : ℕ) (rs : List (Timepoint × D)) → lo' ≤ lo → Rising lo hi rs → Rising lo' hi rs
  Rising-earlier lo lo' hi [] le h = omega arith
  Rising-earlier lo lo' hi (r ∷ rs) le (e, le', h) = (e, omega arith, h)

  pub Rising-suffix :
      (lo hi : ℕ) (gone live : List (Timepoint × D))
      → Rising lo hi (gone ++ live)
      → Rising lo hi live
  Rising-suffix lo hi [] live h = h
  Rising-suffix lo hi (r ∷ gone) live (e, le, h) =
      Rising-earlier (pos_part r.0) lo hi live le (Rising-suffix (pos_part r.0) hi gone live h)

  -- On the clock's readings the test is one of ages in whole milliseconds.
  outdated-age :
      (v now a : ℕ) (x : D)
      → a ≤ now
      → now < clock_end
      → outdated (pos v) (pos now) (pos a, x) ≡ ltb v ((now - a) / 10 ^ 6)
  unfolding outdated
  outdated-age v now a x le lt = ground arith

  -- What is outdated stays so.
  pub outdated_later :
      (v now now' : ℕ) (r : Timepoint × D)
      → r.0 ≡ pos (pos_part r.0)
      → pos_part r.0 ≤ now
      → now ≤ now'
      → now' < clock_end
      → outdated (pos v) (pos now) r ≡ true
      → outdated (pos v) (pos now') r ≡ true
  outdated_later v now now' (negsuc n, x) e le le' lt old = cc
  outdated_later v now now' (pos a, x) e le le' lt old =
      ground (arith, outdated-age v now a x, outdated-age v now' a x)

  fresh_later :
      (v now : ℕ) (r s : Timepoint × D)
      → r.0 ≡ pos (pos_part r.0)
      → s.0 ≡ pos (pos_part s.0)
      → pos_part r.0 ≤ pos_part s.0
      → pos_part s.0 ≤ now
      → now < clock_end
      → outdated (pos v) (pos now) r ≡ false
      → outdated (pos v) (pos now) s ≡ false
  fresh_later v now (pos a, x) (pos b, y) e e' le le' lt new =
      ground (arith, outdated-age v now a x, outdated-age v now b y)
  fresh_later v now _ _ e e' le le' lt new = cc

  fresh_after :
      (v now : ℕ) (r : Timepoint × D) (rs : List (Timepoint × D))
      → r.0 ≡ pos (pos_part r.0)
      → now < clock_end
      → outdated (pos v) (pos now) r ≡ false
      → Rising (pos_part r.0) now rs
      → All (λ s. outdated (pos v) (pos now) s ≡ false) rs
  fresh_after v now r [] e lt new h = tt
  fresh_after v now r (s ∷ ss) e lt new (e', le, h) =
      let new' = fresh_later v now r s e e' le (Rising-le _ now ss h) lt new in
      (new', fresh_after v now s ss e' lt new' h)

  -- So the outdated ones stand in front.
  pub Rising-OldFirst :
      (v lo now : ℕ) (rs : List (Timepoint × D))
      → now < clock_end
      → Rising lo now rs
      → OldFirst (outdated (pos v) (pos now)) rs
  Rising-OldFirst v lo now [] lt h = tt
  Rising-OldFirst v lo now (r ∷ rs) lt (e, le, h) =
      (λ new. fresh_after v now r rs e lt new h, Rising-OldFirst v (pos_part r.0) now rs lt h)

  pub All-outdated_later :
      (v lo now now' : ℕ) (rs live : List (Timepoint × D))
      → now ≤ now'
      → now' < clock_end
      → Rising lo now (rs ++ live)
      → All (λ s. outdated (pos v) (pos now) s ≡ true) rs
      → All (λ s. outdated (pos v) (pos now') s ≡ true) rs
  All-outdated_later v lo now now' [] live le lt h old = tt
  All-outdated_later v lo now now' (r ∷ rs) live le lt (e, le', h) (o, os) = (
    outdated_later v now now' r e (Rising-le _ now (rs ++ live) h) le lt o,
    All-outdated_later v (pos_part r.0) now now' rs live le lt h os,
  )
