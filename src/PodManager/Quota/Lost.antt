-- ===== src/PodManager/Quota/Lost.antt =====
-- A signal that is sent before the other thread waits is lost.
use gemini.Prelude.{
  ℕ, ◌≡◌, refl, sym, ap, ◌∙◌, ◌==◌, ==_iff, Bool-cases, inl, inr, Bool, true, false, List, [], ◌∷◌,
  ◌++◌, if◌then◌else◌, arith,
}
use gemini.Double.{Double}
use gemini.PodManager.Quota.State.{
  HookPc, idle, entered, blocked, free, noted, recorded, expired, marked, estimated, placed, asleep,
  woken, leaving, done, waiting, System,
}
use gemini.PodManager.Quota.Steps.{
  goto, Step, call, pass, block, note, record_burst, keep, expire, mark, estimate, request, sleep,
  complete, again, finish, reply, hang_up, sender_wait, sender_empty, send, drop, answer,
}

middle_ne_nil : {A : Type 0} (xs ys : List A) (x : A) → xs ++ x ∷ ys ≡ [] → ⊥
middle_ne_nil [] ys x e = absurd (ground arith)
middle_ne_nil (y ∷ xs) ys x e = absurd (ground arith)

module _ {D : Type 0} where
  -- A thread that is not past the loop on `quota_state`.
  unfoldable pub outside : HookPc D → Bool
  outside idle = true
  outside (entered overuse_ms burst) = true
  outside (blocked overuse_ms burst) = true
  outside _ = false

  -- Thread `i` sleeps for the response to a request that the sender, which waits for a signal, has not
  -- sent; the quota is being updated, and all other threads are outside.
  pub record IsLost (i req_id : ℕ) (s : System D) : Type 0 where
    pub sleeps : s.hooks i ≡ asleep req_id
    pub updating : s.quota_state ≡ true
    pub quiet : s.sender ≡ waiting
    pub unsent : s.sent ≡ []
    pub others : (j : ℕ) → (if i == j then true else outside (s.hooks j)) ≡ true

  -- A thread that moves is another one.
  mover-IsOther :
      {i a : ℕ} {s : System D}
      → IsLost i a s
      → (j : ℕ) (p : HookPc D) → s.hooks j ≡ p
      → (p ≡ asleep a → ⊥)
      → (i == j) ≡ false
  mover-IsOther {i} {a} {s} lost j p at awake = elim (Bool-cases (i == j)) [
    | inl self ↦ absurd (awake (sym at ∙ ap s.hooks (sym ((==_iff i j).0 self)) ∙ lost.sleeps))
    | inr other ↦ other
  ]

  none_inside :
      {i a : ℕ} {s : System D}
      → IsLost i a s
      → (j : ℕ) (p : HookPc D) → s.hooks j ≡ p
      → (p ≡ asleep a → ⊥)
      → outside p ≡ false
      → ⊥
  none_inside {s = s} lost j p at awake inside =
      let out : outside (s.hooks j) ≡ true =
        rw (mover-IsOther lost j p at awake) at (lost.others j) in
      absurd (ground (arith, ap outside at))

  goto-IsLost :
      {i a : ℕ} {s : System D}
      → IsLost i a s
      → (j : ℕ) (p q : HookPc D) → s.hooks j ≡ p
      → (p ≡ asleep a → ⊥)
      → outside q ≡ true
      → IsLost i a (goto j q s)
  goto-IsLost {i} {a} {s} lost j p q at awake out = record {
    sleeps = let other = mover-IsOther lost j p at awake in ground (arith, lost.sleeps);
    updating = lost.updating;
    quiet = lost.quiet;
    unsent = lost.unsent;
    others = λ k. ground (arith, lost.others k);
  }

module _ {D : Type 0} ⦃d : Double D⦄ where
  IsLost-Step : {i a : ℕ} {s t : System D} → Step s t → IsLost i a s → IsLost i a t
  unfolding outside
  IsLost-Step (call j o b at) l = goto-IsLost l j idle (entered o b) at (λ e. cc) refl
  IsLost-Step (pass j o b at q) l = absurd (ground (arith, l.updating))
  IsLost-Step (block j o b at q) l = goto-IsLost l j (entered o b) (blocked o b) at (λ e. cc) refl
  IsLost-Step (note j o b at) l = absurd (none_inside l j (free o b) at (λ e. cc) refl)
  IsLost-Step (record_burst j b at) l = absurd (none_inside l j (noted b) at (λ e. cc) refl)
  IsLost-Step (keep j b now at q) l = absurd (none_inside l j (recorded b) at (λ e. cc) refl)
  IsLost-Step (expire j b now at q) l = absurd (none_inside l j (recorded b) at (λ e. cc) refl)
  IsLost-Step (mark j at) l = absurd (none_inside l j expired at (λ e. cc) refl)
  IsLost-Step (estimate j at) l = absurd (none_inside l j marked at (λ e. cc) refl)
  IsLost-Step (request j m at small) l = absurd (none_inside l j (estimated m) at (λ e. cc) refl)
  IsLost-Step (sleep j id at) l = absurd (none_inside l j (placed id) at (λ e. cc) refl)
  IsLost-Step (complete j id quota now at found) l =
      absurd (none_inside l j (woken id) at (λ e. cc) refl)
  IsLost-Step (again j id at missing) l = absurd (none_inside l j (woken id) at (λ e. cc) refl)
  IsLost-Step (finish j e at) l = absurd (none_inside l j (leaving e) at (λ e'. cc) refl)
  IsLost-Step (reply j e at) l = absurd (none_inside l j (done e) at (λ e'. cc) refl)
  IsLost-Step (hang_up j at) l = record {
    sleeps = l.sleeps;
    updating = l.updating;
    quiet = l.quiet;
    unsent = l.unsent;
    others = l.others;
  }
  IsLost-Step (sender_wait at) l = absurd (ground (arith, l.quiet))
  IsLost-Step (sender_empty at q) l = absurd (ground (arith, l.quiet))
  IsLost-Step (send r rest at q) l = absurd (ground (arith, l.quiet))
  IsLost-Step (drop r rest at q) l = absurd (ground (arith, l.quiet))
  IsLost-Step (answer before after r quota q) l =
      absurd (middle_ne_nil before after r (sym q ∙ l.unsent))

  -- The states that steps lead to, with no spurious wake-up.
  pub data Steps (s : System D) : System D → Type 0 where
    stay : Steps s s
    more : {t u : System D} → Steps s t → Step t u → Steps s u

  IsLost-Steps : {i a : ℕ} {s t : System D} → Steps s t → IsLost i a s → IsLost i a t
  IsLost-Steps stay l = l
  IsLost-Steps (more r st) l = IsLost-Step st (IsLost-Steps r l)

  -- If a thread sleeps for the response to a request that was not sent, the sender waits, nothing is with the
  -- scheduler and no other thread has passed the loop on `quota_state`, then over any steps without a spurious
  -- wake-up the thread sleeps and the quota stays marked as being updated.
  pub IsLost-forever :
      (i a : ℕ) {s t : System D}
      → IsLost i a s
      → Steps s t
      → (t.hooks i ≡ asleep a) × (t.quota_state ≡ true)
  IsLost-forever i a l r = let l' = IsLost-Steps r l in (l'.sleeps, l'.updating)
