-- ===== src/Scheduler/Usage/Visits.antt =====
-- The loop over the timestamps from `k` on, on the tokens that `remove_if` leaves.
use gemini.Prelude.{◌≡◌, refl, List, [], All, All-of, arith}
use gemini.Double.{Double, IsOrdered}
use gemini.Sort.{Sort, All-perm}
use gemini.Scheduler.Defs.{History}
use gemini.Scheduler.Usage.{Stamp, Sweep, stamps, earlier, skip_before, sweep, sweep_from}
use gemini.Counts.{count-perm}
use gemini.Scheduler.Usage.Overlap.{
  IsSigned, IsBalanced, IsMatched, IsCounted, starts, ends, visited, skip_before-IsBalanced,
  visited-IsCounted, sweep-ends,
}
use gemini.Scheduler.Usage.Timeline.{
  IsToken, earlier-IsStrictWeak, starts-eq-ends, timeline-IsMatched, early-is_start,
}

module _ {D : Type 0} ⦃d : Double D⦄ where
  -- The state at `k` and the timestamps from there on.
  abbrev pub window_part : Sort → D → List (History D) → Sweep D × List (Stamp D)
  window_part sorter window_start history =
      skip_before window_start (sweep_from window_start) (sorter.sort earlier (stamps history))

  window_part-IsBalanced :
      (laws : IsOrdered D) (signs : IsSigned D) (sorter : Sort) (ws : D) (hs : List (History D))
      → All (IsToken ws) hs
      → IsBalanced (window_part sorter ws hs).0 (window_part sorter ws hs).1
        × IsMatched (window_part sorter ws hs).1
  window_part-IsBalanced laws signs sorter ws hs tokens =
      let whole = stamps hs in
      let ordered = sorter.sort earlier whole in
      let perm =
        sorter.sort-perm (λ _. Unit) earlier whole (earlier-IsStrictWeak laws signs)
          (All-of (λ _. tt) whole) in
      skip_before-IsBalanced ws ordered (sweep_from ws)
        (record {
          counted = refl;
          owed = λ n. omega (
            arith,
            count-perm (starts n) perm,
            count-perm (ends n) perm,
            starts-eq-ends laws signs n ws hs tokens,
          );
        })
        (timeline-IsMatched laws signs ws hs tokens [] ordered perm (
          sorter.sort-IsSorted (λ _. Unit) earlier whole (earlier-IsStrictWeak laws signs)
            (All-of (λ _. tt) whole)))
        (All-perm _ perm (early-is_start laws signs ws hs tokens))

  -- For tokens that start after time 0, end after they start and end behind the start of the window, and
  -- however equal times are sorted: whenever the sweep charges, `overlap_cnt` is the number of names it
  -- charges, so every overlapped interval is split among just these; and at the end none is left open.
  pub usages-overlaps :
      (laws : IsOrdered D) (signs : IsSigned D) (sorter : Sort) (ws : D) (hs : List (History D))
      → All (IsToken ws) hs
      → All IsCounted (visited (window_part sorter ws hs).0 (window_part sorter ws hs).1)
        × ((sweep (window_part sorter ws hs).0 (window_part sorter ws hs).1).overlap_check ≡ [])
  usages-overlaps laws signs sorter ws hs tokens =
      let (bal, matched) = window_part-IsBalanced laws signs sorter ws hs tokens in
      (
        visited-IsCounted (window_part sorter ws hs).0 (window_part sorter ws hs).1 bal matched,
        sweep-ends (window_part sorter ws hs).0 (window_part sorter ws hs).1 bal matched,
      )
