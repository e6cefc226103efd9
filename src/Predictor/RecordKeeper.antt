-- ===== src/Predictor/RecordKeeper.antt =====
-- `class RecordKeeper`: a deque of (time point, length) that keeps the maximum in front.
use gemini.Prelude.{
  ◌^◌, ◌-◌, Bool, List, [], ◌∷◌, ◌++◌, if◌then◌else◌, pop_front_while, pop_back_while,
}
use gemini.Prelude.Int.{ℤ, pos, negsuc, ◌+ℤ◌, ◌-ℤ◌, quot, ltb_ℤ}
use gemini.Double.{Double}

-- `timepoint_t`: nanoseconds of the steady clock in a 64-bit integer.
abbrev pub Timepoint : Type 0
Timepoint = ℤ

abbrev pub timepoint_max : Timepoint
timepoint_max = pos (2 ^ 63 - 1)

abbrev pub timepoint_min : Timepoint
timepoint_min = negsuc (2 ^ 63 - 1)

-- The difference of two time points, in nanoseconds. It wraps where it does not fit in 64 bits.
unfoldable pub since : Timepoint → Timepoint → ℤ
since end begin =
    let d = end -ℤ begin in
    if ltb_ℤ timepoint_max d
    then d -ℤ pos (2 ^ 64)
    else if ltb_ℤ d timepoint_min
    then d +ℤ pos (2 ^ 64)
    else d

-- `duration_cast<milliseconds>` and `duration_cast<microseconds>`
abbrev pub milliseconds : ℤ → ℤ
milliseconds ns = quot ns (10 ^ 6)

abbrev pub microseconds : ℤ → ℤ
microseconds ns = quot ns 1000

pub record RecordKeeper (D : Type 0) : Type 0 where
  pub valid_time : ℤ
  pub records : List (Timepoint × D)

-- The constructor.
abbrev pub record_keeper : {D : Type 0} → ℤ → RecordKeeper D
record_keeper valid_time = record { valid_time = valid_time; records = [] }

-- Whether a record is more than `valid_time` milliseconds older than `tp`.
unfoldable pub outdated : {D : Type 0} → ℤ → Timepoint → Timepoint × D → Bool
unfolding since
outdated valid_time tp r = ltb_ℤ valid_time (milliseconds (since tp r.0))

module _ {D : Type 0} ⦃d : Double D⦄ where
  unfoldable pub add : RecordKeeper D → D → Timepoint → RecordKeeper D
  add k length tp = record k {
    records = pop_back_while (λ r. d.lt r.1 length) k.records ++ (tp, length) ∷ [];
  }

  unfoldable pub drop_outdated : RecordKeeper D → Timepoint → RecordKeeper D
  drop_outdated k tp = record k { records = pop_front_while (outdated k.valid_time tp) k.records }

  abbrev pub front_or : D → List (Timepoint × D) → D
  front_or z [] = z
  front_or z (r ∷ rs) = r.1

  unfoldable pub get_max : RecordKeeper D → D
  get_max k = front_or (d.lit 0 1) k.records

  unfoldable pub clear : RecordKeeper D → RecordKeeper D
  clear k = record k { records = [] }
