-- ===== src/Hook/Tracker/Steps.antt =====
-- The steps of the launching thread and of `wait_cuda_kernels`.
use gemini.Prelude.{◌≡◌, Bool, true, false}

-- Where the launching thread stands; `outside` is where no thread holds the mutex.
pub data LaunchPc : Type 0 where
  outside deciding checking sleeping renewing : LaunchPc

-- Where `wait_cuda_kernels` stands: before it waits for a request, in that wait, before the timed wait, in
-- it, and at the synchronization.
pub data TrackPc : Type 0 where
  ready waiting started timing syncing : TrackPc

pub record Tracking : Type 0 where
  pub launcher : LaunchPc
  pub tracker : TrackPc
  pub overuse_trk_cmpl : Bool

-- `pthread_cond_signal(&overuse_trk_strt_cond)`: lost unless the tracking thread waits.
unfoldable pub start : TrackPc → TrackPc
start waiting = started
start p = p

-- `pthread_cond_signal(&overuse_trk_intr_cond)`
unfoldable pub interrupt : TrackPc → TrackPc
interrupt timing = syncing
interrupt p = p

-- `pthread_cond_broadcast(&overuse_trk_cmpl_cond)`
unfoldable pub wake : LaunchPc → LaunchPc
wake sleeping = renewing
wake p = p

-- The request of a token is a part of `renew`.
pub data Step (s : Tracking) : Tracking → Type 0 where
  enter : s.launcher ≡ LaunchPc.outside → Step s (record s { launcher = deciding })
  keep_token : s.launcher ≡ deciding → Step s (record s { launcher = LaunchPc.outside })
  need_token : s.launcher ≡ deciding → Step s (record s { launcher = checking })
  complete :
      s.launcher ≡ checking → s.overuse_trk_cmpl ≡ true → Step s (record s { launcher = renewing })
  wait :
      s.launcher ≡ checking
      → s.overuse_trk_cmpl ≡ false
      → Step s (record s { launcher = sleeping; tracker = interrupt s.tracker })
  renew :
      s.launcher ≡ renewing
      → Step s (record {
        launcher = LaunchPc.outside;
        tracker = start s.tracker;
        overuse_trk_cmpl = false;
      })
  track_wait : s.tracker ≡ ready → Step s (record s { tracker = waiting })
  track_time : s.tracker ≡ started → Step s (record s { tracker = timing })
  track_expire : s.tracker ≡ timing → Step s (record s { tracker = syncing })
  track_done :
      s.tracker ≡ syncing
      → Step s (record { launcher = wake s.launcher; tracker = ready; overuse_trk_cmpl = true })

-- `pthread_cond_wait` may also return with no signal, to the launch and to the tracking thread.
pub data Spurious (s : Tracking) : Tracking → Type 0 where
  unslept : s.launcher ≡ sleeping → Spurious s (record s { launcher = renewing })
  unwaited : s.tracker ≡ waiting → Spurious s (record s { tracker = started })

-- The states that steps lead to, with spurious wake-ups.
pub data Reach (s : Tracking) : Tracking → Type 0 where
  here : Reach s s
  next : {t u : Tracking} → Reach s t → Step t u → Reach s u
  wakes : {t u : Tracking} → Reach s t → Spurious t u → Reach s u

-- No wait of the run returns with no signal.
unfoldable pub IsSignalled : {s t : Tracking} → Reach s t → Type 0
IsSignalled here = Unit
IsSignalled (next r st) = IsSignalled r
IsSignalled (wakes r w) = ⊥

-- `initialize`
abbrev pub initial : Tracking
initial = record { launcher = LaunchPc.outside; tracker = ready; overuse_trk_cmpl = true }
