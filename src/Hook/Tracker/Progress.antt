-- ===== src/Hook/Tracker/Progress.antt =====
-- When a token may be renewed, and when no thread can go on.
use gemini.Prelude.{◌≡◌, refl, Bool, true, false, ◌⊎◌, inl, inr, arith}
use gemini.Hook.Tracker.Steps.{
  LaunchPc, TrackPc, outside, deciding, checking, sleeping, renewing, ready, waiting, started,
  timing, syncing, Tracking, start, interrupt, wake, Step, enter, keep_token, need_token, complete,
  wait, renew, track_wait, track_time, track_expire, track_done, Reach, here, next, wakes,
  IsSignalled, initial,
}

-- No tracking is under way.
abbrev pub IsAtRest : TrackPc → Type 0
IsAtRest p = (p ≡ ready) ⊎ (p ≡ waiting)

-- Where the flag is set, and where a token is renewed, the former tracking is over; and a thread sleeps only
-- while the flag is not set.
pub record IsTracked (s : Tracking) : Type 0 where
  pub rest : s.overuse_trk_cmpl ≡ true → IsAtRest s.tracker
  pub renewed : s.launcher ≡ renewing → s.overuse_trk_cmpl ≡ true
  pub asleep : s.launcher ≡ sleeping → s.overuse_trk_cmpl ≡ false

Step-IsTracked : {s t : Tracking} → Step s t → IsTracked s → IsTracked t
unfolding start interrupt wake
Step-IsTracked (enter e) h = ground arith
Step-IsTracked (keep_token e) h = ground arith
Step-IsTracked (need_token e) h = ground arith
Step-IsTracked (complete e f) h = ground arith
Step-IsTracked (wait e f) h = ground arith
Step-IsTracked (renew e) h = ground arith
Step-IsTracked (track_wait e) h = ground arith
Step-IsTracked (track_time e) h = ground arith
Step-IsTracked (track_expire e) h = ground arith
Step-IsTracked (track_done e) h = ground arith

-- However a launching thread and the tracking thread are interleaved, as long as no wait returns with no signal,
-- a token is renewed only when the tracking of the one before is over, and a launch sleeps only while it is not.
pub Reach-IsTracked : {s : Tracking} (r : Reach initial s) → IsSignalled r → IsTracked s
unfolding IsSignalled
Reach-IsTracked here q = ground arith
Reach-IsTracked (next r st) q = Step-IsTracked st (Reach-IsTracked r q)
Reach-IsTracked (wakes r w) q = absurd q

-- The launch waits for the tracking thread, which waits for a launch.
pub record IsStuck (s : Tracking) : Type 0 where
  pub launch_sleeps : s.launcher ≡ sleeping
  pub tracker_waits : s.tracker ≡ waiting

abbrev pub CanStep : Tracking → Type 0
CanStep s = (t : Tracking) × Step s t

IsStuck-stops : (s : Tracking) → IsStuck s → ¬ CanStep s
IsStuck-stops s h (_, enter e) = ground arith
IsStuck-stops s h (_, keep_token e) = ground arith
IsStuck-stops s h (_, need_token e) = ground arith
IsStuck-stops s h (_, complete e f) = ground arith
IsStuck-stops s h (_, wait e f) = ground arith
IsStuck-stops s h (_, renew e) = ground arith
IsStuck-stops s h (_, track_wait e) = ground arith
IsStuck-stops s h (_, track_time e) = ground arith
IsStuck-stops s h (_, track_expire e) = ground arith
IsStuck-stops s h (_, track_done e) = ground arith

-- Some thread can go on, unless a launch sleeps and the tracking thread waits: then none ever can.
pub CanStep-or_IsStuck : (s : Tracking) → (CanStep s × ¬ IsStuck s) ⊎ (IsStuck s × ¬ CanStep s)
CanStep-or_IsStuck s = by_parts s.launcher s.tracker s.overuse_trk_cmpl refl refl refl
  where
    goes : (s : Tracking) → CanStep s → (CanStep s × ¬ IsStuck s) ⊎ (IsStuck s × ¬ CanStep s)
    goes s step = inl (step, λ h. IsStuck-stops s h step)

    by_parts :
        (l : LaunchPc) (p : TrackPc) (c : Bool)
        → s.launcher ≡ l
        → s.tracker ≡ p
        → s.overuse_trk_cmpl ≡ c
        → (CanStep s × ¬ IsStuck s) ⊎ (IsStuck s × ¬ CanStep s)
    by_parts outside p c e _ _ = goes s (_, enter e)
    by_parts deciding p c e _ _ = goes s (_, keep_token e)
    by_parts checking p true e _ f = goes s (_, complete e f)
    by_parts checking p false e _ f = goes s (_, wait e f)
    by_parts renewing p c e _ _ = goes s (_, renew e)
    by_parts sleeping ready c e f _ = goes s (_, track_wait f)
    by_parts sleeping started c e f _ = goes s (_, track_time f)
    by_parts sleeping timing c e f _ = goes s (_, track_expire f)
    by_parts sleeping syncing c e f _ = goes s (_, track_done f)
    by_parts sleeping waiting c e f _ =
        let h : IsStuck s = record { launch_sleeps = e; tracker_waits = f } in
        inr (h, IsStuck-stops s h)
