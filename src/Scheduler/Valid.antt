-- ===== src/Scheduler/Valid.antt =====
-- Which candidates the loop of `select_candidate` takes for valid.
use native.Mathlib.Nat.{add-zero}
use mathlib.Core.Bool.{false≢true}
use mathlib.Core.Option.{some-injective}
use gemini.Prelude.{
  ℕ, suc, ◌+◌, ◌≡◌, ◌≢◌, refl, sym, ap, ◌∙◌, true, inl, inr, none, some, List, [], ◌∷◌, ◌++◌, arith,
  if◌then◌else◌, Bool-cases, Option-cases, Name, length, All, All-map,
}
use gemini.Double.{Double}
use gemini.Scheduler.Defs.{ClientInfo, Candidate, ValidCandidate, zero_d}
use gemini.Scheduler.Select.{ClientMap, find_client, take_at, valid_candidate, valid_candidates}

module _ {D : Type 0} where
  pub take_at-length :
      (pre post : List (Candidate D)) (c : Candidate D)
      → take_at (length pre) (pre ++ c ∷ post) ≡ some (c, pre ++ post)
  unfolding take_at
  take_at-length [] post c = refl
  take_at-length (a ∷ pre) post c = rw (take_at-length pre post c)

module _ {D : Type 0} ⦃d : Double D⦄ (clients : ClientMap D) (window_size : D)
    (usage : Name → D) where
  -- What the loop makes of a candidate at a position.
  abbrev pub entry : ClientInfo D → ℕ → Candidate D → ValidCandidate D
  entry info i c = valid_candidate info window_size (usage c.name) i c

  -- `Q` holds of the entry of every candidate below its limit.
  abbrev pub EachValid : (ValidCandidate D → Type 0) → ℕ → List (Candidate D) → Type 0
  EachValid Q i [] = Unit
  EachValid Q i (c ∷ cs) =
      ((info : ClientInfo D)
        → find_client c.name clients ≡ some info
        → d.lt zero_d (entry info i c).remaining ≡ true
        → Q (entry info i c))
      × EachValid Q (i + 1) cs

  -- `v` is the entry of a candidate below its limit.
  pub record IsEntry (i : ℕ) (cs : List (Candidate D)) (v : ValidCandidate D) : Type 0 where
    pub pre : List (Candidate D)
    pub post : List (Candidate D)
    pub cand : Candidate D
    pub info : ClientInfo D
    pub split : cs ≡ pre ++ cand ∷ post
    pub known : find_client cand.name clients ≡ some info
    pub entry_eq : v ≡ entry info (i + length pre) cand
    pub below : d.lt zero_d (entry info (i + length pre) cand).remaining ≡ true

  IsEntry-cons :
      (i : ℕ) (c : Candidate D) (cs : List (Candidate D)) (v : ValidCandidate D)
      → IsEntry (i + 1) cs v
      → IsEntry i (c ∷ cs) v
  IsEntry-cons i c cs v h = record {
    pre = c ∷ h.pre;
    post = h.post;
    cand = h.cand;
    info = h.info;
    split = ap (◌∷◌ c) h.split;
    known = h.known;
    entry_eq = rw (← shift) h.entry_eq;
    below = rw (← shift) h.below;
  }
    where
      shift : i + 1 + length h.pre ≡ i + suc (length h.pre)
      shift = omega arith

  IsEntry-here :
      (i : ℕ) (c : Candidate D) (cs : List (Candidate D)) (info : ClientInfo D)
      → find_client c.name clients ≡ some info
      → d.lt zero_d (entry info i c).remaining ≡ true
      → IsEntry i (c ∷ cs) (entry info i c)
  IsEntry-here i c cs info known below = record {
    pre = [];
    post = cs;
    cand = c;
    info = info;
    split = refl;
    known = known;
    entry_eq = rw add-zero refl;
    below = rw add-zero below;
  }

  -- One step of the loop, for a client that is known.
  valid_candidates-step :
      (i : ℕ) (c : Candidate D) (cs : List (Candidate D)) {vs : List (ValidCandidate D)}
      → valid_candidates clients window_size usage i (c ∷ cs) ≡ some vs
      → (info : ClientInfo D) × (rest : List (ValidCandidate D)) × (find_client c.name clients
          ≡ some info)
        × (valid_candidates clients window_size usage (i + 1) cs ≡ some rest)
        × (vs ≡ (if d.lt zero_d (entry info i c).remaining then entry info i c ∷ rest else rest))
  unfolding valid_candidates
  valid_candidates-step i c cs e = elim (Option-cases (find_client c.name clients)) [
    | inl unknown ↦ absurd (ground arith)
    | inr (info, known) ↦
        elim (Option-cases (valid_candidates clients window_size usage (i + 1) cs)) [
          | inl faulty ↦ absurd (ground arith)
          | inr (rest, ok) ↦ (info, rest, known, ok, ground arith)
        ]
  ]

  -- Every entry of the result is one of a candidate below its limit.
  pub valid_candidates-IsEntry :
      (i : ℕ) (cs : List (Candidate D)) {vs : List (ValidCandidate D)}
      → valid_candidates clients window_size usage i cs ≡ some vs
      → All (IsEntry i cs) vs
  unfolding valid_candidates
  valid_candidates-IsEntry i [] e = rw (← some-injective _ _ e) tt
  valid_candidates-IsEntry i (c ∷ cs) e =
      let (info, rest, known, ok, eq) = valid_candidates-step i c cs e in
      let tail =
        All-map (IsEntry (i + 1) cs) (IsEntry i (c ∷ cs)) (IsEntry-cons i c cs) rest
          (valid_candidates-IsEntry (i + 1) cs ok) in
      elim (Bool-cases (d.lt zero_d (entry info i c).remaining)) [
        | inl below ↦ rw (eq, below) (IsEntry-here i c cs info known below, tail)
        | inr over ↦ rw (eq, over) tail
      ]

  -- And every candidate below its limit has its entry.
  pub valid_candidates-EachValid :
      (Q : ValidCandidate D → Type 0) (i : ℕ) (cs : List (Candidate D))
      {vs : List (ValidCandidate D)}
      → valid_candidates clients window_size usage i cs ≡ some vs
      → All Q vs
      → EachValid Q i cs
  valid_candidates-EachValid Q i [] e h = tt
  valid_candidates-EachValid Q i (c ∷ cs) {vs} e h =
      let (info, rest, known, ok, eq) = valid_candidates-step i c cs e in
      elim (Bool-cases (d.lt zero_d (entry info i c).remaining)) [
        | inl below ↦
            let (q, qs) = rw (eq, below) at h in
            (
              λ info' known' _. rw (some-injective _ _ (sym known ∙ known')) at q,
              valid_candidates-EachValid Q (i + 1) cs ok qs,
            )
        | inr over ↦ (
          λ info' known' below.
              let same = some-injective _ _ (sym known ∙ known') in
              absurd (false≢true (sym over ∙ (rw (← same) at below))),
          valid_candidates-EachValid Q (i + 1) cs ok (rw (eq, over) at h),
        )
      ]

  pub EachValid-All :
      (Q : ValidCandidate D → Type 0) (i : ℕ) (cs : List (Candidate D))
      {vs : List (ValidCandidate D)}
      → valid_candidates clients window_size usage i cs ≡ some vs
      → EachValid Q i cs
      → All Q vs
  unfolding valid_candidates
  EachValid-All Q i [] e h = rw (← some-injective _ _ e) tt
  EachValid-All Q i (c ∷ cs) e (h, hs) =
      let (info, rest, known, ok, eq) = valid_candidates-step i c cs e in
      elim (Bool-cases (d.lt zero_d (entry info i c).remaining)) [
        | inl below ↦ rw (eq, below) (h info known below, EachValid-All Q (i + 1) cs ok hs)
        | inr over ↦ rw (eq, over) (EachValid-All Q (i + 1) cs ok hs)
      ]

  -- The loop cannot fail on clients that are known.
  pub valid_candidates-ne-none :
      (i : ℕ) (cs : List (Candidate D))
      → All
          (λ (c : Candidate D). (info : ClientInfo D) × (find_client c.name clients ≡ some info))
          cs
      → valid_candidates clients window_size usage i cs ≢ none
  unfolding valid_candidates
  valid_candidates-ne-none i [] h e = cc
  valid_candidates-ne-none i (c ∷ cs) ((info, known), hs) e =
      ground (arith, known, valid_candidates-ne-none (i + 1) cs hs)
