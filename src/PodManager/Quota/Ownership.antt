-- ===== src/PodManager/Quota/Ownership.antt =====
-- Requests that are under way, and the threads that wait for them, as two functions: how many requests
-- there are with an id, and which id an index waits for.
use gemini.Prelude.{
  one_if, ℕ, ◌+◌, ◌≤◌, ◌≡◌, sym, ◌∙◌, ◌==◌, Bool-cases, inl, inr, Option, none, some, if◌then◌else◌,
  arith,
}

-- Ids from `n` on are fresh; each id under way is so once, and just one index waits for it.
pub record IsOwned (n : ℕ) (out : ℕ → ℕ) (waits : ℕ → Option ℕ) : Type 0 where
  pub fresh : (a : ℕ) → n ≤ a → out a ≡ 0
  pub once : (a : ℕ) → out a ≤ 1
  pub awaited : (i a : ℕ) → waits i ≡ some a → out a ≡ 1
  pub unique : (i j a : ℕ) → waits i ≡ some a → waits j ≡ some a → i ≡ j
  pub owned : (a : ℕ) → out a ≡ 1 → (i : ℕ) × (waits i ≡ some a)

module _ {n : ℕ} {out : ℕ → ℕ} {waits : ℕ → Option ℕ} (inv : IsOwned n out waits) where
  open inv use {fresh, once, awaited, unique, owned}

  pub IsOwned-ext :
      (out' : ℕ → ℕ) (waits' : ℕ → Option ℕ)
      → ((a : ℕ) → out' a ≡ out a)
      → ((i : ℕ) → waits' i ≡ waits i)
      → IsOwned n out' waits'
  IsOwned-ext out' waits' e w = record {
    fresh = λ a h. e a ∙ fresh a h;
    once = λ a. omega (arith, e a, once a);
    awaited = λ i a h. e a ∙ awaited i a (sym (w i) ∙ h);
    unique = λ i j a h k. unique i j a (sym (w i) ∙ h) (sym (w j) ∙ k);
    owned = λ a h. let (i, k) = owned a (sym (e a) ∙ h) in (i, w i ∙ k);
  }

  -- Index `i` starts to wait for a fresh id.
  pub IsOwned-add :
      (i : ℕ) (out' : ℕ → ℕ) (waits' : ℕ → Option ℕ)
      → waits i ≡ none
      → ((a : ℕ) → out' a ≡ out a + one_if (n == a))
      → ((j : ℕ) → waits' j ≡ (if i == j then some n else waits j))
      → IsOwned (n + 1) out' waits'
  IsOwned-add i out' waits' free e w = record {
    fresh = λ a h. ground (arith, e a, fresh a);
    once = λ a. ground (arith, e a, fresh a, once a);
    awaited = λ j a h. ground (arith, e a, w j, fresh a, awaited j a);
    unique = λ j k a h l. ground (arith, w j, w k, fresh a, awaited j a, awaited k a, unique j k a);
    owned = λ a h. elim (Bool-cases (n == a)) [
      | inl new ↦ (i, ground (arith, w i))
      | inr old ↦ let (j, k) = owned a (ground (arith, e a)) in (j, ground (arith, w j))
    ];
  }

  -- Index `i` has waited for `b`, which is under way no more.
  pub IsOwned-remove :
      (i b : ℕ) (out' : ℕ → ℕ) (waits' : ℕ → Option ℕ)
      → waits i ≡ some b
      → ((a : ℕ) → out' a + one_if (b == a) ≡ out a)
      → ((j : ℕ) → waits' j ≡ (if i == j then none else waits j))
      → IsOwned n out' waits'
  IsOwned-remove i b out' waits' has e w = record {
    fresh = λ a h. omega (arith, e a, fresh a);
    once = λ a. omega (arith, e a, once a);
    awaited = λ j a h. ground (arith, e a, w j, awaited j a, unique i j b);
    unique = λ j k a h l. ground (arith, w j, w k, unique j k a);
    owned = λ a h.
        let (j, k) = owned a (omega (arith, e a, once a)) in (j, ground (arith, e a, once a, w j));
  }
