-- ===== src/Scheduler/Usage/Timeline.antt =====
-- Sorted timestamps of tokens: each end comes behind its start.
use mathlib.Core.List.{Permᴰ, append_assoc}
use gemini.Prelude.{
  ◌≤◌, ◌≡◌, refl, Bool, true, false, not, ◌&&◌, List, [], ◌∷◌, ◌++◌, if◌then◌else◌, All, All-map,
  All-of, arith, one_if, Name,
}
use gemini.Double.{Double, IsOrdered}
use gemini.Sort.{IsSorted, IsStrictWeak}
use gemini.Scheduler.Defs.{History, zero_d}
use gemini.Scheduler.Usage.{Stamp, stamps, at, earlier}
use gemini.Counts.{count, count-append, count-perm, count-none, count_mono}
use gemini.Scheduler.Usage.Overlap.{IsSigned, is_start, starts, ends, IsMatched}

-- What stands before and behind an element of a sorted list.
sorted_split :
    {A : Type 0} (lt : A → A → Bool) (pre rest : List A) (x : A)
    → IsSorted lt (pre ++ x ∷ rest)
    → All (λ y. lt x y ≡ false) pre × All (λ y. lt y x ≡ false) rest
sorted_split {A = A} lt [] rest x (h, hs) = (tt, h)
sorted_split {A = A} lt (y ∷ pre) rest x (h, hs) =
    let (before, behind) = sorted_split lt pre rest x hs in ((head_of pre h, before), behind)
  where
    head_of : (ys : List A) → All (λ z. lt z y ≡ false) (ys ++ x ∷ rest) → lt x y ≡ false
    head_of [] (k, ks) = k
    head_of (z ∷ ys) (k, ks) = head_of ys ks

module _ {D : Type 0} ⦃d : Double D⦄ where
  -- A token that was given after the scheduler's start and ends behind the start of the window.
  unfoldable pub IsToken : D → History D → Type 0
  IsToken window_start h =
      (d.lt zero_d h.start ≡ true) × (d.lt h.start h.end ≡ true) × (d.lt window_start h.end ≡ true)

  module _ (laws : IsOrdered D) (signs : IsSigned D) where
    open laws use {lt_irrefl, lt_trans, lt_split}
    open signs use {neg_below, abs-neg, abs_pos}

    pub earlier-IsStrictWeak : IsStrictWeak (λ _. Unit {0}) (earlier {D = D})
    earlier-IsStrictWeak = record {
      irrefl = λ x _. lt_irrefl (at x);
      trans = λ x y z _ _ _. lt_trans (at x) (at y) (at z);
      split = λ x y z _ _ _. lt_split (at x) (at y) (at z);
    }

    not_negative : (x : D) → d.lt zero_d x ≡ true → d.lt x zero_d ≡ false
    not_negative x h = ground (arith, lt_trans zero_d x zero_d, lt_irrefl zero_d)

    -- As many starts as ends of each name.
    pub starts-eq-ends :
        (n : Name) (ws : D) (hs : List (History D))
        → All (IsToken ws) hs
        → count (starts n) (stamps hs) ≡ count (ends n) (stamps hs)
    unfolding stamps IsToken
    starts-eq-ends n ws [] h = refl
    starts-eq-ends n ws (h ∷ hs) ((positive, longer, inside), rest) = ground (
      arith,
      starts-eq-ends n ws hs rest,
      neg_below h.start positive,
      not_negative h.end (lt_trans zero_d h.start h.end positive longer),
    )

    -- A start that is not before `x` has an end behind `x`.
    late_starts :
        (n : Name) (ws x : D) (hs : List (History D))
        → All (IsToken ws) hs
        → count (λ s. starts n s && not (d.lt (at s) x)) (stamps hs)
          ≤ count (λ s. ends n s && d.lt x (at s)) (stamps hs)
    unfolding stamps IsToken
    late_starts n ws x [] h = omega arith
    late_starts n ws x (h ∷ hs) ((positive, longer, inside), rest) =
        let positive' = lt_trans zero_d h.start h.end positive longer in
        ground (
          arith,
          late_starts n ws x hs rest,
          neg_below h.start positive,
          not_negative h.end positive',
          abs-neg h.start positive,
          abs_pos h.end positive',
          lt_split h.start x h.end,
        )

    -- The starts behind a stamp of a sorted timeline are no more than the ends behind it.
    starts-ends :
        (ws : D) (hs : List (History D))
        → All (IsToken ws) hs
        → (pre ss : List (Stamp D)) (s : Stamp D) (n : Name) → Permᴰ (pre ++ s ∷ ss) (stamps hs)
        → IsSorted (earlier {D = D}) (pre ++ s ∷ ss)
        → count (starts n) ss ≤ count (ends n) ss
    starts-ends ws hs tokens pre ss s n perm sorted =
        let (before, behind) = sorted_split earlier pre ss s sorted in
        omega (
          arith,
          late_starts n ws (at s) hs tokens,
          count-perm late perm,
          count-perm over perm,
          count-append late pre (s ∷ ss),
          count-append over pre (s ∷ ss),
          count-none over pre
              (All-map (λ y. earlier s y ≡ false) (λ y. over y ≡ false) none_before pre before),
          count_mono (starts n) late ss (
              All-map (λ y. earlier y s ≡ false) (λ y. (if starts n y then late y else true) ≡ true)
                is_late ss behind),
          count_mono over (ends n) ss (All-of is_end ss),
          none_here,
        )
      where
        late : Stamp D → Bool
        late y = starts n y && not (d.lt (at y) (at s))

        over : Stamp D → Bool
        over y = ends n y && d.lt (at s) (at y)

        none_before : (y : Stamp D) → earlier s y ≡ false → over y ≡ false
        none_before y h = ground arith

        is_late : (y : Stamp D) → earlier y s ≡ false → (if starts n y then late y else true) ≡ true
        is_late y h = ground arith

        is_end : (y : Stamp D) → (if over y then ends n y else true) ≡ true
        is_end y = ground arith

        none_here : one_if (over s) ≡ 0
        none_here = ground (arith, lt_irrefl (at s))

    pub timeline-IsMatched :
        (ws : D) (hs : List (History D))
        → All (IsToken ws) hs
        → (pre ss : List (Stamp D)) → Permᴰ (pre ++ ss) (stamps hs)
        → IsSorted (earlier {D = D}) (pre ++ ss)
        → IsMatched ss
    unfolding IsMatched
    timeline-IsMatched ws hs tokens pre [] perm sorted = tt
    timeline-IsMatched ws hs tokens pre (s ∷ ss) perm sorted = (
      λ _. starts-ends ws hs tokens pre ss s s.name perm sorted,
      timeline-IsMatched ws hs tokens (pre ++ s ∷ []) ss (rw (append_assoc pre (s ∷ []) ss) perm)
          (rw (append_assoc pre (s ∷ []) ss) sorted),
    )

    -- What `skip_before` takes for a start is one.
    pub early-is_start :
        (ws : D) (hs : List (History D))
        → All (IsToken ws) hs
        → All (λ s. d.lt ws (at s) ≡ false → is_start s ≡ true) (stamps hs)
    unfolding stamps IsToken
    early-is_start ws [] h = tt
    early-is_start ws (h ∷ hs) ((positive, longer, inside), rest) = (
      λ _. neg_below h.start positive,
      (
        λ early.
            absurd (ground (arith, abs_pos h.end (lt_trans zero_d h.start h.end positive longer))),
        early-is_start ws hs rest,
      ),
    )
