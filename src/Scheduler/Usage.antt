-- ===== src/Scheduler/Usage.antt =====
-- The first half of `select_candidate`: how long each client has used the device in the window.
mod Names
pub mod Overlap
pub mod Timeline
pub mod Visits
use gemini.Prelude.{Bool, List, [], ◌∷◌, ◌++◌, if◌then◌else◌, Name, name_eq}
use gemini.Prelude.Int.{ℤ, pos, ◌+ℤ◌, ◌-ℤ◌}
use gemini.Double.{Double}
use gemini.Sort.{Sort}
use gemini.Scheduler.Defs.{History, zero_d}

-- `container_timestamp`: the time of a start is stored with a minus.
pub record Stamp (D : Type 0) : Type 0 where
  pub name : Name
  pub time : D

-- The variables of the two loops; `usage` is 0 where the map has no entry.
pub record Sweep (D : Type 0) : Type 0 where
  pub usage : Name → D
  pub overlap_cnt : ℤ
  pub overlap_check : List Name
  pub current_time : D

-- Drops the first entry of that name.
unfoldable pub erase_name : Name → List Name → List Name
erase_name n [] = []
erase_name n (m ∷ ms) = if name_eq m n then ms else m ∷ erase_name n ms

module _ {D : Type 0} ⦃d : Double D⦄ where
  abbrev pub beyond_window : D → History D → Bool
  beyond_window window_start h = d.lt h.end window_start

  -- `timestamp_vector`, not yet sorted.
  unfoldable pub stamps : List (History D) → List (Stamp D)
  stamps [] = []
  stamps (h ∷ hs) =
      record { name = h.name; time = d.neg h.start }
      ∷ record { name = h.name; time = h.end }
      ∷ stamps hs

  abbrev pub at : Stamp D → D
  at s = d.abs s.time

  abbrev pub earlier : Stamp D → Stamp D → Bool
  earlier a b = d.lt (at a) (at b)

  -- The loop up to `k`: what has its time before the window counts as a start.
  unfoldable pub skip_before : D → Sweep D → List (Stamp D) → Sweep D × List (Stamp D)
  skip_before window_start w [] = (w, [])
  skip_before window_start w (s ∷ ss) =
      let rest =
        skip_before window_start
          (record w {
            overlap_cnt = w.overlap_cnt +ℤ pos 1;
            overlap_check = w.overlap_check ++ s.name ∷ [];
          })
          ss in
      if d.lt window_start (at s) then (w, s ∷ ss) else rest

  -- `usage[n] += share` for each name of a list.
  unfoldable pub charge : D → List Name → (Name → D) → Name → D
  charge share [] usage = usage
  charge share (n ∷ ns) usage =
      charge share ns (λ m. if name_eq n m then d.add (usage m) share else usage m)

  -- The body of the loop from `k` on.
  unfoldable pub sweep_stamp : Sweep D → Stamp D → Sweep D
  sweep_stamp w s =
      let share = d.div_int (d.sub (at s) w.current_time) w.overlap_cnt in
      let usage = charge share w.overlap_check w.usage in
      if d.lt s.time zero_d
      then record {
        usage = usage;
        overlap_cnt = w.overlap_cnt +ℤ pos 1;
        overlap_check = w.overlap_check ++ s.name ∷ [];
        current_time = at s;
      }
      else record {
        usage = usage;
        overlap_cnt = w.overlap_cnt -ℤ pos 1;
        overlap_check = erase_name s.name w.overlap_check;
        current_time = at s;
      }

  unfoldable pub sweep : Sweep D → List (Stamp D) → Sweep D
  sweep w [] = w
  sweep w (s ∷ ss) = sweep (sweep_stamp w s) ss

  abbrev pub sweep_from : D → Sweep D
  sweep_from window_start = record {
    usage = λ _. zero_d;
    overlap_cnt = pos 0;
    overlap_check = [];
    current_time = window_start;
  }

  -- The usages, from the history that `remove_if` leaves.
  unfoldable pub usages : Sort → D → List (History D) → Name → D
  usages sorter window_start history =
      let (w, rest) =
        skip_before window_start (sweep_from window_start) (sorter.sort earlier (stamps history)) in
      (sweep w rest).usage
