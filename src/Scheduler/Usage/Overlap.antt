-- ===== src/Scheduler/Usage/Overlap.antt =====
-- `overlap_cnt` and `overlap_check` on the way through the timestamps.

use gemini.Prelude.{
  ◌+◌, ◌≤◌, ◌≡◌, Bool, true, false, not, ◌&&◌, List, [], ◌∷◌, ◌++◌, All, arith, length,
  length-append, Name, name_eq, name_eq_refl, Bool-cases, inl, inr,
}
use gemini.Prelude.Int.{ℤ, pos, ◌+ℤ◌, ◌-ℤ◌}
use gemini.Double.{Double}
use gemini.Scheduler.Defs.{zero_d}
use gemini.Scheduler.Usage.{Stamp, Sweep, erase_name, at, skip_before, charge, sweep_stamp, sweep}
use gemini.Scheduler.Usage.Names.{
  occurrences, occurrences-append, erase_name-occurrences, erase_name-length, occurrences-none,
}
use gemini.Counts.{count}

-- Signs of doubles: -x is below 0 for a positive x, and the absolute value undoes it.
pub record IsSigned (D : Type 0) ⦃d : Double D⦄ : Type 0 where
  pub neg_below : (x : D) → d.lt zero_d x ≡ true → d.lt (d.neg x) zero_d ≡ true
  pub abs-neg : (x : D) → d.lt zero_d x ≡ true → d.abs (d.neg x) ≡ x
  pub abs_pos : (x : D) → d.lt zero_d x ≡ true → d.abs x ≡ x

up :
    (cnt : ℤ) (ns : List Name) (n : Name)
    → cnt ≡ pos (length ns)
    → cnt +ℤ pos 1 ≡ pos (length (ns ++ n ∷ []))
up cnt ns n h = rw h (ground (arith, length-append ns (n ∷ [])))

down :
    (cnt : ℤ) (ns : List Name) (n : Name)
    → cnt ≡ pos (length ns)
    → 1 ≤ occurrences n ns
    → cnt -ℤ pos 1 ≡ pos (length (erase_name n ns))
down cnt ns n h there = rw h (ground (arith, erase_name-length n ns there))

module _ {D : Type 0} ⦃d : Double D⦄ where
  abbrev pub is_start : Stamp D → Bool
  is_start s = d.lt s.time zero_d

  abbrev pub starts : Name → Stamp D → Bool
  starts n s = is_start s && name_eq s.name n

  abbrev pub ends : Name → Stamp D → Bool
  ends n s = not (is_start s) && name_eq s.name n

  -- The count is the number of names, and each name stands there as often as it ends in the rest without
  -- having started there.
  pub record IsBalanced (w : Sweep D) (rest : List (Stamp D)) : Type 0 where
    pub counted : w.overlap_cnt ≡ pos (length w.overlap_check)
    pub owed :
        (n : Name) → occurrences n w.overlap_check + count (starts n) rest ≡ count (ends n) rest

  -- A stamp that ends a token ends one that is there.
  unfoldable pub IsMatched : List (Stamp D) → Type 0
  IsMatched [] = Unit
  IsMatched (s ∷ ss) =
      (is_start s ≡ false → count (starts s.name) ss ≤ count (ends s.name) ss) × IsMatched ss

  begin-IsBalanced :
      (w : Sweep D) (s : Stamp D) (rest : List (Stamp D)) (usage : Name → D) (now : D)
      → IsBalanced w (s ∷ rest)
      → is_start s ≡ true
      → IsBalanced
          (record {
            usage = usage;
            overlap_cnt = w.overlap_cnt +ℤ pos 1;
            overlap_check = w.overlap_check ++ s.name ∷ [];
            current_time = now;
          })
          rest
  begin-IsBalanced w s rest usage now bal begins = record {
    counted = up w.overlap_cnt w.overlap_check s.name bal.counted;
    owed = λ n. ground (arith, bal.owed n, occurrences-append n w.overlap_check s.name);
  }

  end-IsBalanced :
      (w : Sweep D) (s : Stamp D) (rest : List (Stamp D)) (usage : Name → D) (now : D)
      → IsBalanced w (s ∷ rest)
      → is_start s ≡ false
      → count (starts s.name) rest ≤ count (ends s.name) rest
      → IsBalanced
          (record {
            usage = usage;
            overlap_cnt = w.overlap_cnt -ℤ pos 1;
            overlap_check = erase_name s.name w.overlap_check;
            current_time = now;
          })
          rest
  end-IsBalanced w s rest usage now bal stops matched = record {
    counted = down w.overlap_cnt w.overlap_check s.name bal.counted there;
    owed = λ n. ground (arith, bal.owed n, erase_name-occurrences n s.name w.overlap_check there);
  }
    where
      there : 1 ≤ occurrences s.name w.overlap_check
      there = ground (arith, bal.owed s.name, name_eq_refl s.name)

  pub sweep_stamp-IsBalanced :
      (w : Sweep D) (s : Stamp D) (rest : List (Stamp D))
      → IsBalanced w (s ∷ rest)
      → (is_start s ≡ false → count (starts s.name) rest ≤ count (ends s.name) rest)
      → IsBalanced (sweep_stamp w s) rest
  unfolding sweep_stamp
  sweep_stamp-IsBalanced w s rest bal matched =
      let usage =
        charge (d.div_int (d.sub (at s) w.current_time) w.overlap_cnt) w.overlap_check w.usage in
      elim (Bool-cases (is_start s)) [
        | inl begins ↦ rw begins (begin-IsBalanced w s rest usage (at s) bal begins)
        | inr stops ↦ rw stops (end-IsBalanced w s rest usage (at s) bal stops (matched stops))
      ]

  -- Each skipped stamp is a start.
  pub skip_before-IsBalanced :
      (ws : D) (ss : List (Stamp D)) (w : Sweep D)
      → IsBalanced w ss
      → IsMatched ss
      → All (λ s. d.lt ws (at s) ≡ false → is_start s ≡ true) ss
      → IsBalanced (skip_before ws w ss).0 (skip_before ws w ss).1
        × IsMatched (skip_before ws w ss).1
  unfolding skip_before IsMatched
  skip_before-IsBalanced ws [] w bal matched early = (bal, tt)
  skip_before-IsBalanced ws (s ∷ ss) w bal (here, matched) (first, early) =
      elim (Bool-cases (d.lt ws (at s))) [
        | inl later ↦ rw later (bal, (here, matched))
        | inr before ↦ rw before (
            skip_before-IsBalanced ws ss _
              (begin-IsBalanced w s ss w.usage w.current_time bal (first before)) matched early)
      ]

  -- The states of the loop from `k` on, the last one included.
  unfoldable pub visited : Sweep D → List (Stamp D) → List (Sweep D)
  visited w [] = w ∷ []
  visited w (s ∷ ss) = w ∷ visited (sweep_stamp w s) ss

  abbrev pub IsCounted : Sweep D → Type 0
  IsCounted w = w.overlap_cnt ≡ pos (length w.overlap_check)

  pub visited-IsCounted :
      (w : Sweep D) (ss : List (Stamp D))
      → IsBalanced w ss
      → IsMatched ss
      → All IsCounted (visited w ss)
  unfolding visited IsMatched
  visited-IsCounted w [] bal matched = (bal.counted, tt)
  visited-IsCounted w (s ∷ ss) bal (here, matched) = (
    bal.counted,
    visited-IsCounted (sweep_stamp w s) ss (sweep_stamp-IsBalanced w s ss bal here) matched,
  )

  pub sweep-ends :
      (w : Sweep D) (ss : List (Stamp D))
      → IsBalanced w ss
      → IsMatched ss
      → (sweep w ss).overlap_check ≡ []
  unfolding sweep IsMatched
  sweep-ends w [] bal matched = occurrences-none w.overlap_check (λ n. omega (arith, bal.owed n))
  sweep-ends w (s ∷ ss) bal (here, matched) =
      sweep-ends (sweep_stamp w s) ss (sweep_stamp-IsBalanced w s ss bal here) matched
