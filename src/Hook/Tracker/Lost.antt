-- ===== src/Hook/Tracker/Lost.antt =====
-- The signal that comes while the tracking thread is not yet back at its wait.
use gemini.Prelude.{◌≡◌, ◌≢◌, false, arith}
use gemini.Hook.Tracker.Steps.{
  LaunchPc, renewing, ready, Tracking, start, interrupt, wake, Step, enter, keep_token, need_token,
  complete, wait, renew, track_wait, track_time, track_expire, track_done, Reach, here, next, wakes,
  IsSignalled,
}
use gemini.Hook.Tracker.Progress.{IsAtRest}

-- The flag is not set, and nothing is tracked that could set it.
pub record IsLost (s : Tracking) : Type 0 where
  pub unset : s.overuse_trk_cmpl ≡ false
  pub rest : IsAtRest s.tracker
  pub no_token : s.launcher ≢ renewing

Step-IsLost : {s t : Tracking} → Step s t → IsLost s → IsLost t
unfolding start interrupt wake
Step-IsLost (enter e) h = ground arith
Step-IsLost (keep_token e) h = ground arith
Step-IsLost (need_token e) h = ground arith
Step-IsLost (complete e f) h = ground arith
Step-IsLost (wait e f) h = ground arith
Step-IsLost (renew e) h = ground arith
Step-IsLost (track_wait e) h = ground arith
Step-IsLost (track_time e) h = ground arith
Step-IsLost (track_expire e) h = ground arith
Step-IsLost (track_done e) h = ground arith

Reach_keeps-IsLost : {s t : Tracking} → IsLost s → (r : Reach s t) → IsSignalled r → IsLost t
unfolding IsSignalled
Reach_keeps-IsLost h here q = h
Reach_keeps-IsLost h (next r st) q = Step-IsLost st (Reach_keeps-IsLost h r q)
Reach_keeps-IsLost h (wakes r w) q = absurd q

-- A launch that leaves with a token.
renew-IsLost :
    {s t : Tracking}
    → Step s t
    → s.launcher ≡ renewing
    → s.tracker ≡ ready
    → t.launcher ≡ LaunchPc.outside
    → IsLost t
unfolding start interrupt wake
renew-IsLost (enter e) l r o = ground arith
renew-IsLost (keep_token e) l r o = ground arith
renew-IsLost (need_token e) l r o = ground arith
renew-IsLost (complete e f) l r o = ground arith
renew-IsLost (wait e f) l r o = ground arith
renew-IsLost (renew e) l r o = ground arith
renew-IsLost (track_wait e) l r o = ground arith
renew-IsLost (track_time e) l r o = ground arith
renew-IsLost (track_expire e) l r o = ground arith
renew-IsLost (track_done e) l r o = ground arith

-- If a token is renewed while the tracking thread is not back at its wait, its signal is lost: from then on
-- no launch comes to renew a token, and the flag is never set again, as long as no wait returns with no signal.
pub Reach-no_token :
    {s t u : Tracking}
    → s.launcher ≡ renewing
    → s.tracker ≡ ready
    → Step s t
    → t.launcher ≡ LaunchPc.outside
    → (run : Reach t u) → IsSignalled run
    → (u.launcher ≢ renewing) × (u.overuse_trk_cmpl ≡ false)
Reach-no_token l r st o run q =
    let h = Reach_keeps-IsLost (renew-IsLost st l r o) run q in (h.no_token, h.unset)
