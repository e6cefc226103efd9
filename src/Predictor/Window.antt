-- ===== src/Predictor/Window.antt =====
-- A record keeper against the full list of what was put in: the sliding-window maximum.
use mathlib.Core.List.{append_assoc}
use gemini.Prelude.{
  ℕ, ◌≤◌, ◌<◌, ◌≡◌, refl, sym, ap, ◌∙◌, Bool, true, List, [], ◌∷◌, ◌++◌, arith, All, All-append,
  if◌then◌else◌, pop_front_while, reject,
}
use gemini.Prelude.Int.{pos}
use gemini.Double.{Double, IsOrdered}
use gemini.Predictor.RecordKeeper.{
  Timepoint, outdated, RecordKeeper, front_or, add, drop_outdated, get_max, clear,
}
use gemini.Predictor.Maxima.{
  maxima, longest, front-maxima, maxima-snoc, pop_front_while-maxima, pop_front_while-reject,
}
use gemini.Predictor.Clock.{
  clock_end, Rising, Rising-later, Rising-snoc, Rising-suffix, Rising-OldFirst, All-outdated_later,
}

module _ {ℓ} {A : Type ℓ} (old : A → Bool) where
  -- The elements that `pop_front_while` removes.
  abbrev take_while : List A → List A
  take_while [] = []
  take_while (x ∷ xs) = if old x then x ∷ take_while xs else []

  take_while-append : (xs : List A) → take_while xs ++ pop_front_while old xs ≡ xs
  unfolding pop_front_while
  take_while-append [] = refl
  take_while-append (x ∷ xs) = ground (arith, take_while-append xs)

  All-take_while : (xs : List A) → All (λ x. old x ≡ true) (take_while xs)
  All-take_while [] = tt
  All-take_while (x ∷ xs) = ground (arith, All-take_while xs)

  reject-old : (xs ys : List A) → All (λ x. old x ≡ true) xs → reject old (xs ++ ys) ≡ reject old ys
  unfolding reject
  reject-old [] ys h = refl
  reject-old (x ∷ xs) ys (e, h) = rw e (reject-old xs ys h)

module _ {D : Type 0} ⦃d : Double D⦄ where
  -- The records that are not outdated at `now`.
  unfoldable pub fresh : ℕ → ℕ → List (Timepoint × D) → List (Timepoint × D)
  fresh v now = reject (outdated (pos v) (pos now))

  -- By the time `hi` the keeper `k` was given the records `all`; those it has dropped are outdated.
  pub record Kept (v hi : ℕ) (all : List (Timepoint × D)) (k : RecordKeeper D) : Type 0 where
    pub gone : List (Timepoint × D)
    pub live : List (Timepoint × D)
    pub split : all ≡ gone ++ live
    pub valid : k.valid_time ≡ pos v
    pub content : k.records ≡ maxima live
    pub old : All (λ r. outdated (pos v) (pos hi) r ≡ true) gone
    pub rising : Rising 0 hi (gone ++ live)

  pub Kept-empty :
      (v hi : ℕ) (k : RecordKeeper D) → k.valid_time ≡ pos v → k.records ≡ [] → Kept v hi [] k
  unfolding maxima
  Kept-empty v hi k e e' = record {
    gone = [];
    live = [];
    split = refl;
    valid = e;
    content = e';
    old = tt;
    rising = omega arith;
  }

  pub Kept-later :
      (v hi now : ℕ) {all : List (Timepoint × D)} {k : RecordKeeper D}
      → hi ≤ now
      → now < clock_end
      → Kept v hi all k
      → Kept v now all k
  Kept-later v hi now le lt h = record {
    gone = h.gone;
    live = h.live;
    split = h.split;
    valid = h.valid;
    content = h.content;
    old = All-outdated_later v 0 hi now h.gone h.live le lt h.rising h.old;
    rising = Rising-later 0 hi now (h.gone ++ h.live) le h.rising;
  }

  pub Kept-clear :
      (v hi : ℕ) {all : List (Timepoint × D)} {k : RecordKeeper D}
      → Kept v hi all k
      → Kept v hi [] (clear k)
  unfolding clear
  Kept-clear v hi {k} h = Kept-empty v hi (clear k) h.valid refl

  module _ (laws : IsOrdered D) where
    pub Kept-add :
        (v now : ℕ) (x : D) {all : List (Timepoint × D)} {k : RecordKeeper D}
        → Kept v now all k
        → Kept v now (all ++ (pos now, x) ∷ []) (add k x (pos now))
    unfolding add
    Kept-add v now x {all} {k} h = record {
      gone = h.gone;
      live = h.live ++ (pos now, x) ∷ [];
      split = rw h.split (append_assoc h.gone h.live _);
      valid = h.valid;
      content = rw h.content (sym (maxima-snoc laws (pos now, x) h.live));
      old = h.old;
      rising =
          rw (← append_assoc) (Rising-snoc 0 now now x (h.gone ++ h.live) (omega arith) h.rising);
    }

  pub Kept-drop_outdated :
      (v now : ℕ) {all : List (Timepoint × D)} {k : RecordKeeper D}
      → now < clock_end
      → Kept v now all k
      → Kept v now all (drop_outdated k (pos now))
  unfolding drop_outdated
  Kept-drop_outdated v now {all} {k} lt h = record {
    gone = h.gone ++ take_while old_now h.live;
    live = pop_front_while old_now h.live;
    split = regroup h.split;
    valid = h.valid;
    content =
        rw (h.valid, h.content)
          (pop_front_while-maxima old_now h.live
            (Rising-OldFirst v 0 now h.live lt (Rising-suffix 0 now h.gone h.live h.rising)));
    old = All-append _ h.gone (take_while old_now h.live) h.old (All-take_while old_now h.live);
    rising = rw (← regroup refl) h.rising;
  }
    where
      old_now : Timepoint × D → Bool
      old_now = outdated (pos v) (pos now)

      regroup :
          {xs : List (Timepoint × D)}
          → xs ≡ h.gone ++ h.live
          → xs ≡ (h.gone ++ take_while old_now h.live) ++ pop_front_while old_now h.live
      regroup e =
          e
          ∙ ap (◌++◌ h.gone) (sym (take_while-append old_now h.live))
          ∙ sym (append_assoc h.gone (take_while old_now h.live) _)

  -- The maximum after a drop is the longest length of the records that are not outdated.
  pub get_max-drop_outdated :
      IsOrdered D
      → (v now : ℕ) {all : List (Timepoint × D)} {k : RecordKeeper D} → now < clock_end
      → Kept v now all k
      → get_max (drop_outdated k (pos now)) ≡ longest (fresh v now all)
  unfolding drop_outdated get_max fresh
  get_max-drop_outdated laws v now {all} {k} lt h =
      let old_now = outdated {D = D} (pos v) (pos now) in
      let apart = Rising-OldFirst v 0 now h.live lt (Rising-suffix 0 now h.gone h.live h.rising) in
      rw (h.valid, h.content, h.split, reject-old old_now h.gone h.live h.old)
        (ap (front_or (d.lit 0 1)) (pop_front_while-maxima old_now h.live apart)
          ∙ front-maxima laws (pop_front_while old_now h.live)
          ∙ ap longest (pop_front_while-reject old_now h.live apart))
