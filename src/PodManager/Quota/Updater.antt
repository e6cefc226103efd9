-- ===== src/PodManager/Quota/Updater.antt =====
-- Who updates the quota while `quota_state` says so.
use gemini.Prelude.{
  ℕ, ◌≡◌, refl, sym, ap, ◌∙◌, ◌==◌, ==_iff, Bool-cases, inl, inr, Bool, true, false, arith,
}
use gemini.Double.{Double}
use gemini.Predictor.RecordKeeper.{Timepoint}
use gemini.PodManager.Quota.State.{
  HookPc, idle, entered, blocked, free, noted, recorded, expired, marked, estimated, placed, asleep,
  woken, leaving, done, System, update, elapsed_since, max_burst_from, wake_asleep,
}
use gemini.PodManager.Quota.Steps.{
  place, take_response, leave, receive_response, Step, call, pass, block, note, record_burst, keep,
  expire, mark, estimate, request, sleep, complete, again, finish, reply, hang_up, sender_wait,
  sender_empty, send, drop, answer, Spurious, unblocked, unslept, sender_unslept, init, Reach, here,
  next, wakes,
}
use gemini.PodManager.Quota.Races.{update_self}

module _ {D : Type 0} where
  -- A thread that is to set `quota_state` back.
  unfoldable pub is_updating : HookPc D → Bool
  is_updating marked = true
  is_updating (estimated max_burst) = true
  is_updating (placed req_id) = true
  is_updating (asleep req_id) = true
  is_updating (woken req_id) = true
  is_updating (leaving elapsed_time) = true
  is_updating _ = false

  abbrev pub Updater : (ℕ → HookPc D) → Type 0
  Updater hooks = (i : ℕ) × (is_updating (hooks i) ≡ true)

  goto-Updater :
      (hooks : ℕ → HookPc D) (j : ℕ) (p q : HookPc D)
      → hooks j ≡ p
      → (is_updating p ≡ true → is_updating q ≡ true)
      → Updater hooks
      → Updater (update hooks j q)
  goto-Updater hooks j p q at still (i, h) = elim (Bool-cases (j == i)) [
    | inl self ↦
        let same : hooks i ≡ p = ap hooks (sym ((==_iff j i).0 self)) ∙ at in
        (i, rw self (still (sym (ap is_updating same) ∙ h)))
    | inr other ↦ (i, rw other h)
  ]

  wake_asleep-Updater : (p : HookPc D) → is_updating p ≡ true → is_updating (wake_asleep p) ≡ true
  unfolding wake_asleep is_updating
  wake_asleep-Updater (asleep id) h = refl
  wake_asleep-Updater p h = h

module _ {D : Type 0} ⦃d : Double D⦄ where
  Step-Updater :
      {s t : System D}
      → Step s t
      → (s.quota_state ≡ true → Updater s.hooks)
      → t.quota_state ≡ true
      → Updater t.hooks
  unfolding is_updating place take_response receive_response leave
  Step-Updater {s} (call i o b at) u q =
      goto-Updater s.hooks i idle (entered o b) at (λ e. cc) (u q)
  Step-Updater {s} (pass i o b at e) u q =
      goto-Updater s.hooks i (entered o b) (free o b) at (λ e'. cc) (u q)
  Step-Updater {s} (block i o b at e) u q =
      goto-Updater s.hooks i (entered o b) (blocked o b) at (λ e'. cc) (u q)
  Step-Updater {s} (note i o b at) u q =
      goto-Updater s.hooks i (free o b) (noted b) at (λ e. cc) (u q)
  Step-Updater {s} (record_burst i b at) u q =
      goto-Updater s.hooks i (noted b) (recorded b) at (λ e. cc) (u q)
  Step-Updater {s} (keep i b now at e) u q =
      goto-Updater s.hooks i (recorded b) (leaving (elapsed_since s.quota_updated_tp now)) at
        (λ _. refl) (u q)
  Step-Updater {s} (expire i b now at e) u q =
      goto-Updater s.hooks i (recorded b) expired at (λ e'. cc) (u q)
  Step-Updater {s} (mark i at) u q = (i, ap is_updating (update_self s.hooks i marked))
  Step-Updater {s} (estimate i at) u q =
      goto-Updater s.hooks i marked (estimated (max_burst_from (d.lit 0 1) s.client_burst_map)) at
        (λ _. refl) (u q)
  Step-Updater {s} (request i m at small) u q =
      goto-Updater s.hooks i (estimated m) (placed s.next_id) at (λ _. refl) (u q)
  Step-Updater {s} (sleep i id at) u q =
      goto-Updater s.hooks i (placed id) (asleep id) at (λ _. refl) (u q)
  Step-Updater {s} (complete i id quota now at found) u q =
      goto-Updater s.hooks i (woken id) (leaving (d.lit 0 1)) at (λ _. refl) (u q)
  Step-Updater {s} (again i id at missing) u q =
      goto-Updater s.hooks i (woken id) (placed id) at (λ _. refl) (u q)
  Step-Updater (finish i e at) u q = absurd (ground arith)
  Step-Updater {s} (reply i e at) u q = goto-Updater s.hooks i (done e) idle at (λ e'. cc) (u q)
  Step-Updater (hang_up i at) u q = u q
  Step-Updater (sender_wait at) u q = u q
  Step-Updater (sender_empty at e) u q = u q
  Step-Updater (send r rest at e) u q = u q
  Step-Updater (drop r rest at e) u q = u q
  Step-Updater {s} (answer before after r quota e) u q =
      let (i, h) = u q in (i, wake_asleep-Updater (s.hooks i) h)

  Spurious-Updater :
      {s t : System D}
      → Spurious s t
      → (s.quota_state ≡ true → Updater s.hooks)
      → t.quota_state ≡ true
      → Updater t.hooks
  unfolding is_updating
  Spurious-Updater {s} (unblocked i o b at) u q =
      goto-Updater s.hooks i (blocked o b) (entered o b) at (λ e. cc) (u q)
  Spurious-Updater {s} (unslept i id at) u q =
      goto-Updater s.hooks i (asleep id) (woken id) at (λ _. refl) (u q)
  Spurious-Updater (sender_unslept at) u q = u q

  -- Whenever `quota_state` is set, some thread stands between setting it and setting it back, so no thread
  -- waits at it for nobody.
  pub Reach-Updater :
      (tp : Timepoint) {s : System D} → Reach (init tp) s → s.quota_state ≡ true → Updater s.hooks
  Reach-Updater tp here q = absurd (ground arith)
  Reach-Updater tp (next r st) q = Step-Updater st (λ q'. Reach-Updater tp r q') q
  Reach-Updater tp (wakes r sp) q = Spurious-Updater sp (λ q'. Reach-Updater tp r q') q
