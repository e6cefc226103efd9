-- ===== src/Hook/Launch.antt =====
-- `cuLaunchKernel_prehook`, `host_sync_call` and the tracking of overuse in src/hook.cpp, for one
-- device. Each reading of a clock is an argument. A launch that waits for the tracking thread goes on
-- when that thread has signalled, so the thread's work is a part of the launch.
use gemini.Deadline.{Timespec}
use gemini.Prelude.{Bool, true, false, Option, none, some, List, [], ◌∷◌, if◌then◌else◌}
use gemini.Prelude.Int.{ℤ, pos, ◌+ℤ◌, ◌-ℤ◌, ◌*ℤ◌, quot}
use gemini.Double.{Double, le, max_d}
use gemini.Predictor.RecordKeeper.{Timepoint}
use gemini.Predictor.Defs.{
  Predictor, ongoing_unmerged, record_stop, record_start, interrupt, predict_unmerged,
  predict_merged, set_upperbound,
}

-- `struct timespec`
pub record Launcher (D : Type 0) : Type 0 where
  pub burst_predictor : Predictor D
  pub window_predictor : Predictor D
  pub quota_time : D
  pub request_start : Timespec
  pub overuse : D
  pub overuse_trk_cmpl : Bool

-- What a launch and the tracking thread it waits for read from the clocks, in this order;
-- `elapsed_ms` is what `cudaEventElapsedTime` gives.
pub record Readings (D : Type 0) : Type 0 where
  pub window_stopped : Timepoint
  pub elapsed : Timespec
  pub predicted : Timepoint
  pub merged_burst : Timepoint
  pub merged_window : Timepoint
  pub synced : Timepoint
  pub window_started : Timepoint
  pub elapsed_ms : D
  pub requested : Timespec
  pub burst_started : Timepoint

unfoldable pub us_since : Timespec → Timespec → ℤ
us_since begin now =
    (now.tv_sec -ℤ begin.tv_sec) *ℤ pos 1000000 +ℤ quot (now.tv_nsec -ℤ begin.tv_nsec) 1000

module _ {D : Type 0} ⦃d : Double D⦄ where
  abbrev pub schd_overhead : D
  schd_overhead = d.lit 20 1

  unfoldable pub estimate_full_burst : D → D → D
  estimate_full_burst measured_burst measured_window =
      if d.lt measured_burst (d.lit 1 9)
      then d.lit 0 1
      else if d.lt measured_window schd_overhead
      then d.mul measured_burst (d.lit 2 0)
      else measured_burst

  unfoldable pub host_sync_call : Timepoint → Timepoint → Launcher D → Launcher D
  unfolding record_stop record_start
  host_sync_call stopped started s = record s {
    burst_predictor = record_stop s.burst_predictor stopped;
    window_predictor = record_start s.window_predictor started;
  }

  -- `wait_cuda_kernels` from the synchronization on.
  unfoldable pub track_overuse : Readings D → Launcher D → Launcher D
  unfolding host_sync_call
  track_overuse r s = record (host_sync_call r.synced r.window_started s) {
    overuse = max_d (d.lit 0 1) (d.sub r.elapsed_ms s.quota_time);
    overuse_trk_cmpl = true;
  }

  -- The new quota, whatever the scheduler answers.
  abbrev pub new_quota : D
  new_quota = d.lit 6000 0

  -- The predicted burst that is sent, and the state with the token. The overuse that is sent is not
  -- modelled: the source passes a pointer where the message holds a `double`.
  unfoldable pub renew_token : Readings D → Launcher D → D × Launcher D
  unfolding estimate_full_burst track_overuse interrupt predict_merged set_upperbound
  renew_token r s =
      let (burst, burst_predictor) = predict_merged s.burst_predictor r.merged_burst in
      let (window, window_predictor) = predict_merged s.window_predictor r.merged_window in
      let t = record s { burst_predictor = burst_predictor; window_predictor = window_predictor } in
      let u = if t.overuse_trk_cmpl then t else track_overuse r t in
      (
        estimate_full_burst burst window,
        record u {
          burst_predictor = set_upperbound u.burst_predictor (d.sub new_quota (d.lit 10 1));
          window_predictor = interrupt u.window_predictor;
          request_start = r.requested;
          quota_time = new_quota;
          overuse_trk_cmpl = false;
        },
      )

  -- Whether the next burst may cause overuse.
  unfoldable pub may_overuse : Readings D → D → Launcher D → Bool
  unfolding us_since
  may_overuse r burst s =
      le s.quota_time (d.add (d.of_us (us_since s.request_start r.elapsed)) burst)

  -- The burst with which a token is requested, if it is.
  unfoldable pub check_quota : Readings D → Launcher D → Option D × Launcher D
  unfolding predict_unmerged may_overuse renew_token
  check_quota r s =
      let (burst, burst_predictor) = predict_unmerged s.burst_predictor r.predicted in
      let t = record s { burst_predictor = burst_predictor } in
      let (next_burst, u) = renew_token r t in
      if ongoing_unmerged s.burst_predictor
      then (none, s)
      else if may_overuse r burst s
      then (some next_burst, u)
      else (none, t)

  unfoldable pub launch : Readings D → Launcher D → Option D × Launcher D
  unfolding check_quota record_stop record_start
  launch r s =
      let (request, t) =
        check_quota r
          (record s { window_predictor = record_stop s.window_predictor r.window_stopped }) in
      (request, record t { burst_predictor = record_start t.burst_predictor r.burst_started })

  -- Launches with no synchronization between them, and the requests they make.
  unfoldable pub launches : List (Readings D) → Launcher D → List (Option D) × Launcher D
  unfolding launch
  launches [] s = ([], s)
  launches (r ∷ rs) s =
      let (request, t) = launch r s in let (requests, u) = launches rs t in (request ∷ requests, u)
