-- ===== src/Scheduler/Usage/Names.antt =====
-- Names that stand in a list so many times.
use gemini.Prelude.{
  ℕ, ◌+◌, ◌≤◌, ◌≡◌, refl, ap, List, [], ◌∷◌, ◌++◌, arith, one_if, length, Name, name_eq,
  name_eq_sound, name_eq_refl, Bool-cases, inl, inr,
}
use gemini.Scheduler.Usage.{erase_name}
use gemini.Counts.{count, count-append}

-- How often a name stands in a list.
abbrev pub occurrences : Name → List Name → ℕ
occurrences n ns = count (λ m. name_eq m n) ns

pub occurrences-append :
    (n : Name) (ns : List Name) (m : Name)
    → occurrences n (ns ++ m ∷ []) ≡ occurrences n ns + one_if (name_eq m n)
occurrences-append n ns m = omega (arith, count-append (λ k. name_eq k n) ns (m ∷ []))

pub erase_name-occurrences :
    (n m : Name) (ns : List Name)
    → 1 ≤ occurrences m ns
    → occurrences n (erase_name m ns) + one_if (name_eq m n) ≡ occurrences n ns
unfolding erase_name
erase_name-occurrences n m [] h = absurd (omega arith)
erase_name-occurrences n m (k ∷ ns) h = elim (Bool-cases (name_eq k m)) [
  | inl same ↦ rw same (omega (arith, ap (λ j. one_if (name_eq j n)) (name_eq_sound k m same)))
  | inr other ↦ rw other (omega (arith, erase_name-occurrences n m ns (ground arith)))
]

pub erase_name-length :
    (m : Name) (ns : List Name) → 1 ≤ occurrences m ns → length (erase_name m ns) + 1 ≡ length ns
unfolding erase_name
erase_name-length m [] h = absurd (omega arith)
erase_name-length m (k ∷ ns) h = ground (arith, erase_name-length m ns)

pub occurrences-none : (ns : List Name) → ((n : Name) → occurrences n ns ≡ 0) → ns ≡ []
occurrences-none [] h = refl
occurrences-none (m ∷ ns) h = absurd (ground (arith, h m, name_eq_refl m))
