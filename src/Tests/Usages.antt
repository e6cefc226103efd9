-- ===== src/Tests/Usages.antt =====
-- The usage of three tokens of two clients, of which one overlaps another.
use gemini.Prelude.{arith, ◌≡◌, refl, List, [], ◌∷◌, All, name_eq}
use gemini.Double.{Fixed, fixed_double, Fixed-IsOrdered, ms}
use gemini.Sort.{by_insertion, insertion_sort}
use gemini.Scheduler.Defs.{History}
use gemini.Scheduler.Usage.{stamps, skip_before, sweep, sweep_stamp, charge, erase_name, usages}
use gemini.Scheduler.Usage.Overlap.{IsSigned, IsCounted, visited}
use gemini.Scheduler.Usage.Timeline.{IsToken}
use gemini.Scheduler.Usage.Visits.{window_part, usages-overlaps}
use gemini.Tests.Schedulers.{first_name, second_name, token}

Fixed-IsSigned : IsSigned Fixed
Fixed-IsSigned = record {
  neg_below = λ x h. ground arith;
  abs-neg = λ x h. ground arith;
  abs_pos = λ x h. ground arith;
}

abbrev tokens : List (History Fixed)
tokens =
    token first_name 8_000 12_000
    ∷ token second_name 9_000 11_000
    ∷ token first_name 14_000 15_000
    ∷ []

overlap_runs :
    (usages by_insertion (ms 10_000) tokens first_name ≡ ms 2_500)
    × (usages by_insertion (ms 10_000) tokens second_name ≡ ms 500)
unfolding usages stamps skip_before sweep sweep_stamp charge erase_name by_insertion insertion_sort
    name_eq
overlap_runs = (refl, refl)

usages-overlaps_example :
    All IsCounted (
      visited
        (window_part by_insertion (ms 10_000) tokens).0
        (window_part by_insertion (ms 10_000) tokens).1)
    × ((sweep
          (window_part by_insertion (ms 10_000) tokens).0
          (window_part by_insertion (ms 10_000) tokens).1).overlap_check
        ≡ [])
unfolding IsToken
usages-overlaps_example =
    usages-overlaps Fixed-IsOrdered Fixed-IsSigned by_insertion (ms 10_000) tokens
      ((refl, refl, refl), ((refl, refl, refl), ((refl, refl, refl), tt)))

-- A token that ends at the start of the window stays in the history, and its end counts as a start: the
-- time of another client is then divided by three, and the first one is charged for two parts of it.
ends_at_window_start :
    let history = token first_name 8_000 10_000 ∷ token second_name 12_000 15_000 ∷ [] in
    (usages by_insertion (ms 10_000) history first_name ≡ ms 4_000)
    × (usages by_insertion (ms 10_000) history second_name ≡ ms 1_000)
unfolding usages stamps skip_before sweep sweep_stamp charge erase_name by_insertion insertion_sort
    name_eq
ends_at_window_start = (refl, refl)
