-- ===== src/PodManager/Quota/Races.antt =====
-- Runs that the mutexes do not rule out.
use gemini.Prelude.{ℕ, ◌≡◌, refl, ◌==◌, true, false, arith}
use gemini.Double.{Double, max_d}
use gemini.Predictor.RecordKeeper.{Timepoint}
use gemini.PodManager.Quota.State.{
  idle, entered, free, noted, recorded, expired, marked, estimated, asleep, waiting, System, update,
  elapsed_since, max_burst_from, signal, put,
}
use gemini.PodManager.Quota.Steps.{
  goto, place, call, pass, note, record_burst, expire, mark, estimate, request, sleep, sender_wait,
  init, Reach, here, next,
}
use gemini.PodManager.Quota.Lost.{IsLost, outside}

self_eq : (i : ℕ) → (i == i) ≡ true
self_eq i = ground arith

pub update_self : {A : Type 0} (f : ℕ → A) (i : ℕ) (a : A) → update f i a i ≡ a
update_self f i a = rw (self_eq i) refl

module _ {D : Type 0} ⦃d : Double D⦄ where
  -- Thread `i` on its way to `marked`, where nobody updates the quota at its test.
  abbrev checked : ℕ → (overuse_ms burst : D) → System D → System D
  checked i overuse_ms burst s =
      goto i (free overuse_ms burst) (goto i (entered overuse_ms burst) s)

  Reach-checked :
      (i : ℕ) (overuse_ms burst : D) {s t : System D}
      → Reach s t
      → t.hooks i ≡ idle
      → t.quota_state ≡ false
      → Reach s (checked i overuse_ms burst t)
  Reach-checked i o b {s} {t} r at usual =
      next (next r (call i o b at)) (pass i o b (update_self t.hooks i (entered o b)) usual)

  -- The burst does not fit in what is left of the quota.
  abbrev pub Expires : System D → Timepoint → D → Type 0
  Expires s now burst = d.lt s.pod_quota (d.add (elapsed_since s.quota_updated_tp now) burst) ≡ true

  abbrev updating : ℕ → (overuse_ms burst : D) → System D → System D
  updating i overuse_ms burst s =
      let s1 =
        goto i (noted burst) (record s { pod_overuse_ms = max_d overuse_ms s.pod_overuse_ms }) in
      let s2 =
        goto i (recorded burst)
          (record s1 { client_burst_map = put i burst s1.client_burst_map }) in
      goto i marked (record (goto i expired s2) { quota_state = true })

  Reach-updating :
      (i : ℕ) (overuse_ms burst : D) (now : Timepoint) {s t : System D}
      → Reach s t
      → t.hooks i ≡ free overuse_ms burst
      → Expires t now burst
      → Reach s (updating i overuse_ms burst t)
  Reach-updating i o b now {s} {t} r at over =
      next
        (next (next (next r (note i o b at)) (record_burst i b (update_self t.hooks i (noted b))))
          (expire i b now (update_self (update t.hooks i (noted b)) i (recorded b)) over))
        (mark i (update_self (update (update t.hooks i (noted b)) i (recorded b)) i expired))

  -- Any two threads whose bursts do not fit in the first quota can both come to update the quota,
  -- although `quota_state` is there to let in one: each tests it before the other sets it.
  pub two_updating :
      (tp now : Timepoint) (i j : ℕ) (overuse_ms overuse_ms' burst burst' : D)
      → (i == j) ≡ false
      → Expires (init tp) now burst
      → Expires (init tp) now burst'
      → (s : System D) × Reach (init tp) s × (s.hooks i ≡ marked) × (s.hooks j ≡ marked)
  two_updating tp now i j o o' b b' apart over over' =
      let s1 = checked i o b (init tp) in
      let r1 : Reach (init tp) s1 = Reach-checked i o b here refl refl in
      let s2 = checked j o' b' s1 in
      let r2 : Reach (init tp) s2 = Reach-checked j o' b' r1 (ground arith) refl in
      let s3 = updating i o b s2 in
      let r3 : Reach (init tp) s3 = Reach-updating i o b now r2 (ground arith) over in
      let r4 : Reach (init tp) (updating j o' b' s3) =
        Reach-updating j o' b' now r3 (ground arith) over' in
      (updating j o' b' s3, r4, ground arith, ground arith)

  -- Any thread whose burst does not fit in the first quota can come to sleep for a response that never
  -- comes: it places its request and signals before the sender waits.
  pub Reach-IsLost :
      (tp now : Timepoint) (i : ℕ) (overuse_ms burst : D)
      → Expires (init tp) now burst
      → (s : System D) × Reach (init tp) s × IsLost i 1 s
  unfolding place signal outside
  Reach-IsLost tp now i o b over =
      let s1 = updating i o b (checked i o b (init tp)) in
      let r1 : Reach (init tp) s1 =
        Reach-updating i o b now (Reach-checked i o b here refl refl)
          (update_self (update (λ _. idle) i (entered o b)) i (free o b)) over in
      let m = max_burst_from (d.lit 0 1) s1.client_burst_map in
      let s2 = goto i (estimated m) s1 in
      let r2 : Reach (init tp) s2 = next r1 (estimate i (ground arith)) in
      let s3 = place i m s2 in
      let r3 : Reach (init tp) s3 = next r2 (request i m (ground arith) (omega arith)) in
      let s4 = goto i (asleep 1) s3 in
      let r4 : Reach (init tp) s4 = next r3 (sleep i 1 (ground arith)) in
      let s5 = record s4 { sender = waiting } in
      let r5 : Reach (init tp) s5 = next r4 (sender_wait refl) in
      (
        s5,
        r5,
        record {
          sleeps = ground arith;
          updating = refl;
          quiet = refl;
          unsent = refl;
          others = λ k. ground arith;
        },
      )
