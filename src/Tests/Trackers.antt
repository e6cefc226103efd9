-- ===== src/Tests/Trackers.antt =====
-- The first launch renews its token before the tracking thread has come to its wait.
use gemini.Prelude.{◌≡◌, ◌≢◌, ◌⊎◌, refl, false}
use gemini.Hook.Tracker.Steps.{
  sleeping, renewing, waiting, Tracking, start, interrupt, Step, enter, need_token, complete, wait,
  renew, track_wait, Reach, here, next, wakes, unslept, IsSignalled, initial,
}
use gemini.Hook.Tracker.Progress.{IsTracked, Reach-IsTracked, IsStuck, CanStep, CanStep-or_IsStuck}
use gemini.Hook.Tracker.Lost.{Reach-no_token}

abbrev renews : Tracking
renews = record initial { launcher = renewing }

abbrev renewed : Tracking
renewed = record initial { overuse_trk_cmpl = false }

abbrev stuck : Tracking
stuck = record renewed { launcher = sleeping; tracker = waiting }

abbrev to_renewal : Reach initial renews
to_renewal = next (next (next here (enter refl)) (need_token refl)) (complete refl refl)

renewal-IsSignalled : IsSignalled to_renewal
unfolding IsSignalled
renewal-IsSignalled = tt

Reach-IsTracked_example : IsTracked renews
Reach-IsTracked_example = Reach-IsTracked to_renewal renewal-IsSignalled

lost : Step renews renewed
unfolding start
lost = renew refl

-- Then the tracking thread waits for the next request, and the next launch waits for the tracking thread.
abbrev to_stuck : Reach renewed stuck
unfolding interrupt
to_stuck =
    next (next (next (next here (track_wait refl)) (enter refl)) (need_token refl)) (wait refl refl)

stuck-IsSignalled : IsSignalled to_stuck
unfolding IsSignalled to_stuck
stuck-IsSignalled = tt

is_stuck : IsStuck stuck
is_stuck = record { launch_sleeps = refl; tracker_waits = refl }

Reach-no_token_example : (stuck.launcher ≢ renewing) × (stuck.overuse_trk_cmpl ≡ false)
Reach-no_token_example = Reach-no_token refl refl lost refl to_stuck stuck-IsSignalled

no_step_when_stuck : (CanStep stuck × ¬ IsStuck stuck) ⊎ (IsStuck stuck × ¬ CanStep stuck)
no_step_when_stuck = CanStep-or_IsStuck stuck

-- If the wait of the next launch returns with no signal, a token is renewed though the flag is not set.
early : Reach renewed (record renewed { launcher = renewing; tracker = waiting })
unfolding interrupt
early = wakes to_stuck (unslept refl)
