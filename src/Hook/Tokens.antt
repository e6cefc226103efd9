-- ===== src/Hook/Tokens.antt =====
-- When launches ask for a token.
use gemini.Prelude.{
  ◌≡◌, refl, ap, Bool, true, false, not, ◌||◌, Option, none, some, List, [], ◌∷◌, Bool-cases, inl,
  inr, All,
}
use gemini.Prelude.Int.{eqb_ℤ}
use gemini.Double.{Double}
use gemini.Predictor.RecordKeeper.{Timepoint, timepoint_max}
use gemini.Predictor.Defs.{
  predict_unmerged, Predictor, ongoing_unmerged, ongoing_merged, duration, record_start,
  record_stop,
}
use gemini.Deadline.{Timespec}
use gemini.Hook.Launch.{
  new_quota, may_overuse, renew_token, Launcher, Readings, check_quota, launch, launches,
}

module _ {D : Type 0} ⦃d : Double D⦄ where
  -- A reading of the clock is not the sentinel.
  unfoldable pub IsReading : Readings D → Type 0
  IsReading r = eqb_ℤ r.burst_started timepoint_max ≡ false

  IsOngoing : Launcher D → Type 0
  IsOngoing s = ongoing_unmerged s.burst_predictor ≡ true

  record_start-ongoing_unmerged :
      (p : Predictor D) (now : Timepoint)
      → eqb_ℤ now timepoint_max ≡ false
      → ongoing_unmerged (record_start p now) ≡ true
  unfolding record_start
  record_start-ongoing_unmerged p now h = elim (Bool-cases (ongoing_unmerged p)) [
    | inl on ↦ rw on on
    | inr off ↦
        rw off
          (elim (Bool-cases
            (not (ongoing_merged p) || d.lt p.merge_thres (duration now p.long_period_end))) [
              | inl apart ↦ rw apart (ap not h)
              | inr merged ↦ rw merged (ap not h)
            ])
  ]

  -- After a launch the burst is going on.
  launch-IsOngoing : (r : Readings D) (s : Launcher D) → IsReading r → IsOngoing (launch r s).1
  unfolding launch IsReading IsOngoing
  launch-IsOngoing r s h =
      let t = record s { window_predictor = record_stop s.window_predictor r.window_stopped } in
      record_start-ongoing_unmerged (check_quota r t).1.burst_predictor r.burst_started h

  -- While the burst is going on, a launch asks for nothing.
  launch-none : (r : Readings D) (s : Launcher D) → IsOngoing s → (launch r s).0 ≡ none
  unfolding launch check_quota IsOngoing
  launch-none r s ongoing = rw ongoing refl

  launches-none :
      (rs : List (Readings D)) (s : Launcher D)
      → All IsReading rs
      → IsOngoing s
      → All (λ request. request ≡ none) (launches rs s).0
  unfolding launches
  launches-none [] s h ongoing = tt
  launches-none (r ∷ rs) s (h, hs) ongoing =
      (launch-none r s ongoing, launches-none rs (launch r s).1 hs (launch-IsOngoing r s h))

  -- Of launches with no synchronization between them only the first may ask for a token.
  pub launches-first :
      (r : Readings D) (rs : List (Readings D)) (s : Launcher D)
      → All IsReading (r ∷ rs)
      → All (λ request. request ≡ none) (launches rs (launch r s).1).0
  launches-first r rs s (h, hs) = launches-none rs (launch r s).1 hs (launch-IsOngoing r s h)

  -- The token in use and the state of its tracking.
  abbrev pub token : Launcher D → D × Timespec × Bool
  token s = (s.quota_time, s.request_start, s.overuse_trk_cmpl)

  -- The token after a launch with that request.
  abbrev pub token_after : Readings D → Launcher D → Option D → D × Timespec × Bool
  token_after r s none = token s
  token_after r s (some burst) = (new_quota, r.requested, false)

  check_quota-token :
      (r : Readings D) (s : Launcher D)
      → token (check_quota r s).1 ≡ token_after r s (check_quota r s).0
  unfolding check_quota renew_token predict_unmerged
  check_quota-token r s = elim (Bool-cases (ongoing_unmerged s.burst_predictor)) [
    | inl on ↦ rw on refl
    | inr off ↦
        rw off
          (elim (Bool-cases (may_overuse r (predict_unmerged s.burst_predictor r.predicted).0 s)) [
            | inl over ↦ rw over refl
            | inr within ↦ rw within refl
          ])
  ]

  -- A launch that asks for nothing keeps the token, its start and the state of its tracking; one that
  -- asks for a token has a new one that starts at the request, and whose overuse is to be tracked.
  pub launch-token :
      (r : Readings D) (s : Launcher D) → token (launch r s).1 ≡ token_after r s (launch r s).0
  unfolding launch
  launch-token r s =
      check_quota-token r
        (record s { window_predictor = record_stop s.window_predictor r.window_stopped })
