-- ===== src/Tests/Quotas.antt =====
-- Hook threads with bursts of 5 ms and 2 ms in a Pod that has no quota yet.
use gemini.Prelude.{ℕ, ◌≡◌, refl, All, Bool, if◌then◌else◌, ◌==◌, true, false, arith, List, [], ◌∷◌}
use gemini.Prelude.Int.{pos}
use gemini.Double.{Fixed, fixed_double, Fixed-IsOrdered, ms}
use gemini.PodManager.Quota.Bursts.{max_burst_from-bounds}
use gemini.Predictor.RecordKeeper.{since}
use gemini.PodManager.Quota.State.{
  System, marked, asleep, elapsed_since, put, max_burst_from, signal, waiting, entered, idle,
}
use gemini.PodManager.Quota.Steps.{
  goto, place, call, pass, note, record_burst, expire, mark, estimate, request, sender_wait, init,
  Reach, here, next, Run,
}
use gemini.PodManager.Quota.Requests.{IsConsistent}
use gemini.PodManager.Quota.Delivery.{Reach-IsConsistent}
use gemini.PodManager.Quota.Lost.{IsLost, stay, more, IsLost-forever, outside}
use gemini.PodManager.Quota.Races.{two_updating, Reach-IsLost}
use gemini.PodManager.Quota.Updater.{Updater, Reach-Updater}

abbrev five_run : Run {D = Fixed} (init (pos 0))
unfolding elapsed_since since
five_run = record {
  last = _;
  reach =
      next
        (next
          (next
            (next (next (next here (call 3 (ms 0) (ms 5) refl)) (pass 3 (ms 0) (ms 5) refl refl))
              (note 3 (ms 0) (ms 5) refl))
            (record_burst 3 (ms 5) refl))
          (expire 3 (ms 5) (pos 0) refl refl))
        (mark 3 refl);
}

-- The request of 5 ms is queued, and the sender wakes up.
abbrev placed_run : Run {D = Fixed} (init (pos 0))
unfolding five_run place signal max_burst_from put elapsed_since since
placed_run = record {
  last = _;
  reach =
      next (next (next five_run.reach (estimate 3 refl)) (sender_wait refl))
        (request 3 (ms 5) refl (omega arith));
}

Reach-IsConsistent_example : IsConsistent placed_run.last
Reach-IsConsistent_example = Reach-IsConsistent (pos 0) placed_run.reach

one_thread_updates : Updater five_run.last.hooks
unfolding elapsed_since since
one_thread_updates = Reach-Updater (pos 0) five_run.reach refl

two_updating_example :
    (s : System Fixed) × Reach (init (pos 0)) s × (s.hooks 3 ≡ marked) × (s.hooks 4 ≡ marked)
unfolding elapsed_since since
two_updating_example = two_updating (pos 0) (pos 0) 3 4 (ms 0) (ms 0) (ms 5) (ms 2) refl refl refl

Reach-IsLost_example : (s : System Fixed) × Reach (init (pos 0)) s × IsLost 3 1 s
unfolding elapsed_since since
Reach-IsLost_example = Reach-IsLost (pos 0) (pos 0) 3 (ms 0) (ms 5) refl

-- The sender waits, thread 3 sleeps, and its request 1 is neither sent nor answered.
abbrev lost_state : System Fixed
lost_state = record (init (pos 0)) {
  quota_state = true;
  sender = waiting;
  hooks = λ j. if j == 3 then asleep 1 else idle;
}

lost : IsLost 3 1 lost_state
unfolding outside
lost = record {
  sleeps = refl;
  updating = refl;
  quiet = refl;
  unsent = refl;
  others = λ j. ground arith;
}

-- Another client calls.
IsLost-forever_example :
    ((goto 4 (entered (ms 0) (ms 2)) lost_state).hooks 3 ≡ asleep 1) × (◌≡◌ {A = Bool} true true)
IsLost-forever_example = IsLost-forever 3 1 lost (more stay (call 4 (ms 0) (ms 2) refl))

abbrev bursts : List (ℕ × Fixed)
bursts = (3, ms 5) ∷ (4, ms 7) ∷ (5, ms 2) ∷ []

burst_of_the_clients :
    (fixed_double.lt (max_burst_from (ms 0) bursts) (ms 0) ≡ false)
    × All (λ (e : ℕ × Fixed). fixed_double.lt (max_burst_from (ms 0) bursts) e.1 ≡ false) bursts
burst_of_the_clients = max_burst_from-bounds Fixed-IsOrdered (ms 0) bursts
