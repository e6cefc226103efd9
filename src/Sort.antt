-- ===== src/Sort.antt =====
-- `std::sort`: a parameter with what the standard says of it, and an implementation that meets it.
use mathlib.Core.List.{Permᴰ}
use mathlib.Core.List.Permᴰ
use gemini.Prelude.{
  ◌≡◌, refl, ◌⊎◌, not, ◌&&◌, ◌||◌, Bool, true, false, List, [], ◌∷◌, arith, if◌then◌else◌, All,
  All-map, Bool-cases, inl, inr,
}

-- On the elements that satisfy `P` the comparison is a strict weak order.
pub record IsStrictWeak {A : Type 0} (P : A → Type 0) (lt : A → A → Bool) : Type 0 where
  pub irrefl : (x : A) → P x → lt x x ≡ false
  pub trans : (x y z : A) → P x → P y → P z → lt x y ≡ true → lt y z ≡ true → lt x z ≡ true
  pub split : (x y z : A) → P x → P y → P z → lt x z ≡ true → (lt x y ≡ true) ⊎ (lt y z ≡ true)

abbrev all_of : {A : Type 0} → (A → Bool) → List A → Bool
all_of p [] = true
all_of p (x ∷ xs) = p x && all_of p xs

module _ {A : Type 0} (lt : A → A → Bool) where
  abbrev orders : A → A → A → Bool
  orders x y z = (not (lt x y && lt y z) || lt x z) && (not (lt x z) || lt x y || lt y z)

  -- Whether the comparison is a strict weak order on the elements of the list, as `std::sort` demands.
  unfoldable pub is_strict_weak : List A → Bool
  is_strict_weak xs =
      all_of (λ x. not (lt x x) && all_of (λ y. all_of (λ z. orders x y z) xs) xs) xs

module _ {A : Type 0} where
  -- An element of the list.
  abbrev pub IsIn : A → List A → Type 0
  IsIn x [] = ⊥
  IsIn x (y ∷ ys) = (x ≡ y) ⊎ IsIn x ys

  pub All-IsIn : (xs : List A) → All (λ x. IsIn x xs) xs
  All-IsIn [] = tt
  All-IsIn (x ∷ xs) =
      (inl refl, All-map (λ y. IsIn y xs) (λ y. IsIn y (x ∷ xs)) (λ y h. inr h) xs (All-IsIn xs))

  all_of-IsIn : (p : A → Bool) (xs : List A) (x : A) → all_of p xs ≡ true → IsIn x xs → p x ≡ true
  all_of-IsIn p [] x h i = absurd i
  all_of-IsIn p (y ∷ ys) x h (inl e) = rw e (ground (arith, h))
  all_of-IsIn p (y ∷ ys) x h (inr i) = all_of-IsIn p ys x (ground (arith, h)) i

  all_of-All :
      (P : A → Type 0) (p : A → Bool) (xs : List A)
      → ((x : A) → P x → p x ≡ true)
      → All P xs
      → all_of p xs ≡ true
  all_of-All P p [] f h = refl
  all_of-All P p (x ∷ xs) f (h, hs) = rw (f x h, all_of-All P p xs f hs) refl

  module _ (lt : A → A → Bool) (xs : List A) where
    pub is_strict_weak-IsIn : is_strict_weak lt xs ≡ true → IsStrictWeak (λ x. IsIn x xs) lt
    unfolding is_strict_weak
    is_strict_weak-IsIn test = record {
      irrefl = λ x i. ground (arith, of_one x i);
      trans = λ x y z i j k. ground (arith, of_three x y z i j k);
      split = λ x y z i j k. ground (arith, of_three x y z i j k);
    }
      where
        of_one :
            (x : A)
            → IsIn x xs
            → (not (lt x x) && all_of (λ y. all_of (λ z. orders lt x y z) xs) xs) ≡ true
        of_one x i =
            all_of-IsIn (λ x. not (lt x x) && all_of (λ y. all_of (λ z. orders lt x y z) xs) xs) xs
              x test i

        of_three : (x y z : A) → IsIn x xs → IsIn y xs → IsIn z xs → orders lt x y z ≡ true
        of_three x y z i j k =
            all_of-IsIn (λ z. orders lt x y z) xs z
              (all_of-IsIn (λ y. all_of (λ z. orders lt x y z) xs) xs y (ground (arith, of_one x i))
                j)
              k

    pub is_strict_weak-All :
        (P : A → Type 0) → IsStrictWeak P lt → All P xs → is_strict_weak lt xs ≡ true
    unfolding is_strict_weak
    is_strict_weak-All P laws all =
        all_of-All P _ xs
          (λ x px.
            let rest =
              all_of-All P (λ y. all_of (λ z. orders lt x y z) xs) xs
                (λ y py.
                  all_of-All P (λ z. orders lt x y z) xs
                    (λ z pz. ground (arith, laws.trans x y z px py pz, laws.split x y z px py pz))
                    all)
                all in
            rw (laws.irrefl x px, rest) refl)
          all

-- No element goes before one that stands in front of it.
abbrev pub IsSorted : {A : Type 0} → (A → A → Bool) → List A → Type 0
IsSorted lt [] = Unit {0}
IsSorted lt (x ∷ xs) = All (λ y. lt y x ≡ false) xs × IsSorted lt xs

-- Nothing is said where the comparison is no strict weak order on the elements of the list; and which of two
-- elements that tie comes first is left open.
pub record Sort : Type 1 where
  pub sort : {A : Type 0} → (A → A → Bool) → List A → List A
  pub sort-perm :
      {A : Type 0} (P : A → Type 0) (lt : A → A → Bool) (xs : List A)
      → IsStrictWeak P lt
      → All P xs
      → Permᴰ (sort lt xs) xs
  pub sort-IsSorted :
      {A : Type 0} (P : A → Type 0) (lt : A → A → Bool) (xs : List A)
      → IsStrictWeak P lt
      → All P xs
      → IsSorted lt (sort lt xs)

pub All-perm : {A : Type 0} (P : A → Type 0) {xs ys : List A} → Permᴰ xs ys → All P ys → All P xs
All-perm P Permᴰ.nil h = tt
All-perm P (Permᴰ.cons e p) (h, hs) = (rw e h, All-perm P p hs)
All-perm P (Permᴰ.swap e e') (h, (h', hs)) = (rw e h', (rw e' h, hs))
All-perm P (Permᴰ.trans p q) h = All-perm P p (All-perm P q h)

module _ {A : Type 0} (lt : A → A → Bool) where
  insert : A → List A → List A
  insert x [] = x ∷ []
  insert x (y ∷ ys) = if lt y x then y ∷ insert x ys else x ∷ y ∷ ys

  unfoldable pub insertion_sort : List A → List A
  unfolding insert
  insertion_sort [] = []
  insertion_sort (x ∷ xs) = insert x (insertion_sort xs)

  insert-perm : (x : A) (xs : List A) → Permᴰ (insert x xs) (x ∷ xs)
  unfolding insert
  insert-perm x [] = Permᴰ.cons refl Permᴰ.nil
  insert-perm x (y ∷ ys) = elim (Bool-cases (lt y x)) [
    | inl e ↦ rw e (Permᴰ.trans (Permᴰ.cons refl (insert-perm x ys)) (Permᴰ.swap refl refl))
    | inr e ↦ rw e (Permᴰ.refl (x ∷ y ∷ ys))
  ]

  pub insertion_sort-perm : (xs : List A) → Permᴰ (insertion_sort xs) xs
  unfolding insertion_sort
  insertion_sort-perm [] = Permᴰ.nil
  insertion_sort-perm (x ∷ xs) =
      Permᴰ.trans (insert-perm x (insertion_sort xs)) (Permᴰ.cons refl (insertion_sort-perm xs))

  module _ (P : A → Type 0) (laws : IsStrictWeak P lt) where
    open laws use {irrefl, trans, split}

    -- What does not go before `y` does not go before `x`, if `y` does not either.
    not_before :
        (x y : A) (zs : List A)
        → P x
        → P y
        → All P zs
        → lt y x ≡ false
        → All (λ z. lt z y ≡ false) zs
        → All (λ z. lt z x ≡ false) zs
    not_before x y [] px py pz e h = tt
    not_before x y (z ∷ zs) px py (pz, pzs) e (h, hs) =
        (ground (arith, split z y x pz py px), not_before x y zs px py pzs e hs)

    insert-IsSorted :
        (x : A) (xs : List A) → P x → All P xs → IsSorted lt xs → IsSorted lt (insert x xs)
    unfolding insert
    insert-IsSorted x [] px pxs h = (tt, tt)
    insert-IsSorted x (y ∷ ys) px (py, pys) (h, hs) = elim (Bool-cases (lt y x)) [
      | inl e ↦ rw e (
        All-perm (λ z. lt z y ≡ false) (insert-perm x ys)
            (ground (arith, trans y x y py px py, irrefl y py), h),
        insert-IsSorted x ys px pys hs,
      )
      | inr e ↦ rw e ((e, not_before x y ys px py pys e h), (h, hs))
    ]

    pub insertion_sort-IsSorted : (xs : List A) → All P xs → IsSorted lt (insertion_sort xs)
    unfolding insertion_sort
    insertion_sort-IsSorted [] p = tt
    insertion_sort-IsSorted (x ∷ xs) (px, pxs) =
        insert-IsSorted x (insertion_sort xs) px (All-perm P (insertion_sort-perm xs) pxs)
          (insertion_sort-IsSorted xs pxs)

-- For tests; elements that tie keep their order.
unfoldable pub by_insertion : Sort
unfolding insertion_sort
by_insertion = record {
  sort = insertion_sort;
  sort-perm = λ P lt xs laws all. insertion_sort-perm lt xs;
  sort-IsSorted = λ P lt xs laws. insertion_sort-IsSorted lt P laws xs;
}
