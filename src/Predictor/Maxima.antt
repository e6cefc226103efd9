-- ===== src/Predictor/Maxima.antt =====
-- The contents of a record keeper, described from the records that were put in.
use gemini.Prelude.{
  ◌≡◌, refl, ap, ◌∙◌, inl, inr, Bool-cases, Bool, true, false, List, [], ◌∷◌, ◌++◌, arith,
  if◌then◌else◌, All, pop_front_while, pop_back_while, reject,
}
use gemini.Double.{Double, IsOrdered, max_d}
use gemini.Predictor.RecordKeeper.{Timepoint, front_or}

module _ {D : Type 0} ⦃d : Double D⦄ where
  abbrev beaten : D → List (Timepoint × D) → Bool
  beaten x [] = false
  beaten x (r ∷ rs) = d.lt x r.1

  abbrev cons_max : Timepoint × D → List (Timepoint × D) → List (Timepoint × D)
  cons_max r k = if beaten r.1 k then k else r ∷ k

  -- The records with no longer one behind them.
  unfoldable pub maxima : List (Timepoint × D) → List (Timepoint × D)
  maxima [] = []
  maxima (r ∷ rs) = cons_max r (maxima rs)

  unfoldable pub longest_from : D → List (Timepoint × D) → D
  longest_from m [] = m
  longest_from m (r ∷ rs) = longest_from (max_d m r.1) rs

  -- The longest length, 0 of no records: `std::max` over the list.
  unfoldable pub longest : List (Timepoint × D) → D
  unfolding longest_from
  longest [] = d.lit 0 1
  longest (r ∷ rs) = longest_from r.1 rs

  module _ (laws : IsOrdered D) where
    open laws use {lt_trans, lt_split}

    cons_max-max :
        (m : D) (s : Timepoint × D) (k : List (Timepoint × D))
        → (if beaten (max_d m s.1) k then front_or (max_d m s.1) k else max_d m s.1)
          ≡ (if beaten m (cons_max s k) then front_or m (cons_max s k) else m)
    cons_max-max m s [] = ground arith
    cons_max-max m s (t ∷ ts) = ground (arith, lt_trans m s.1 t.1, lt_split m s.1 t.1)

    longest_from-maxima :
        (m : D) (rs : List (Timepoint × D))
        → longest_from m rs ≡ (if beaten m (maxima rs) then front_or m (maxima rs) else m)
    unfolding maxima longest_from
    longest_from-maxima m [] = refl
    longest_from-maxima m (s ∷ ss) =
        longest_from-maxima (max_d m s.1) ss ∙ cons_max-max m s (maxima ss)

    -- The record in front has the longest length.
    pub front-maxima : (rs : List (Timepoint × D)) → front_or (d.lit 0 1) (maxima rs) ≡ longest rs
    unfolding maxima longest longest_from
    front-maxima [] = refl
    front-maxima (r ∷ rs) = ground (arith, longest_from-maxima r.1 rs)

    maxima-snoc-step :
        (x r : Timepoint × D) (k : List (Timepoint × D))
        → let pop = pop_back_while (λ (s : Timepoint × D). d.lt s.1 x.1) in
          cons_max r (pop k ++ x ∷ []) ≡ pop (cons_max r k) ++ x ∷ []
    unfolding pop_back_while
    maxima-snoc-step x r [] = ground arith
    maxima-snoc-step x r (t ∷ ts) = ground (arith, lt_trans r.1 t.1 x.1)

    -- To add a record is to pop the shorter ones behind and to push it.
    pub maxima-snoc :
        (x : Timepoint × D) (rs : List (Timepoint × D))
        → maxima (rs ++ x ∷ [])
          ≡ pop_back_while (λ (s : Timepoint × D). d.lt s.1 x.1) (maxima rs) ++ x ∷ []
    unfolding maxima pop_back_while
    maxima-snoc x [] = refl
    maxima-snoc x (r ∷ rs) = ap (cons_max r) (maxima-snoc x rs) ∙ maxima-snoc-step x r (maxima rs)

  All-maxima {κ} :
      (P : Timepoint × D → Type κ) (rs : List (Timepoint × D)) → All P rs → All P (maxima rs)
  unfolding maxima
  All-maxima P [] p = tt
  All-maxima P (r ∷ rs) (p, ps) = ground (arith, All-maxima P rs ps)

-- The elements that satisfy `old` stand in front of the others.
abbrev pub OldFirst {ℓ} : {A : Type ℓ} → (A → Bool) → List A → Type 0
OldFirst old [] = Unit
OldFirst old (x ∷ xs) = (old x ≡ false → All (λ y. old y ≡ false) xs) × OldFirst old xs

pop_front_while-fresh {ℓ} :
    {A : Type ℓ} (old : A → Bool) (xs : List A)
    → All (λ y. old y ≡ false) xs
    → pop_front_while old xs ≡ xs
unfolding pop_front_while
pop_front_while-fresh old [] h = refl
pop_front_while-fresh old (x ∷ xs) (h, hs) = ground arith

-- Then popping the old ones in front removes all of them.
pub pop_front_while-reject {ℓ} :
    {A : Type ℓ} (old : A → Bool) (xs : List A)
    → OldFirst old xs
    → pop_front_while old xs ≡ reject old xs
unfolding pop_front_while reject
pop_front_while-reject old [] h = refl
pop_front_while-reject old (x ∷ xs) (h, hs) =
    ground (arith, pop_front_while-reject old xs hs, pop_front_while-fresh old xs)

module _ {D : Type 0} ⦃d : Double D⦄ where
  cons_max-old :
      (old : Timepoint × D → Bool) (r : Timepoint × D) (k : List (Timepoint × D))
      → old r ≡ true
      → pop_front_while old (cons_max r k) ≡ pop_front_while old k
  unfolding pop_front_while
  cons_max-old old r [] e = ground arith
  cons_max-old old r (t ∷ ts) e = ground arith

  -- Dropping what is old in front commutes with keeping the maxima.
  pub pop_front_while-maxima :
      (old : Timepoint × D → Bool) (rs : List (Timepoint × D))
      → OldFirst old rs
      → pop_front_while old (maxima rs) ≡ maxima (pop_front_while old rs)
  unfolding maxima pop_front_while
  pop_front_while-maxima old [] h = refl
  pop_front_while-maxima old (r ∷ rs) (h, hs) = elim (Bool-cases (old r)) [
    | inl e ↦ rw (cons_max-old old r (maxima rs) e, e) (pop_front_while-maxima old rs hs)
    | inr e ↦ rw e (
        pop_front_while-fresh old (maxima (r ∷ rs))
          (All-maxima (λ s. old s ≡ false) (r ∷ rs) (e, h e)))
  ]
