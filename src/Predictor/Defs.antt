-- ===== src/Predictor/Defs.antt =====
-- `class Predictor`. Each method takes the reading of the steady clock that it makes; the mutex, the
-- name and the process id, which serve logging and exclusion only, are left out.
use gemini.Prelude.{Bool, not, ◌||◌, if◌then◌else◌}
use gemini.Prelude.Int.{ℤ, pos, eqb_ℤ}
use gemini.Double.{Double}
use gemini.Predictor.RecordKeeper.{
  Timepoint, timepoint_max, timepoint_min, since, microseconds, RecordKeeper, record_keeper, add,
  drop_outdated, get_max, clear,
}

abbrev pub predict_max_keep : ℤ
predict_max_keep = pos 3000

pub record Predictor (D : Type 0) : Type 0 where
  pub merge_thres : D
  pub period_begin : Timepoint
  pub long_period_begin : Timepoint
  pub long_period_end : Timepoint
  pub normal_records : RecordKeeper D
  pub long_records : RecordKeeper D
  pub upperbound : D

module _ {D : Type 0} where
  abbrev pub ongoing_unmerged : Predictor D → Bool
  ongoing_unmerged p = not (eqb_ℤ p.period_begin timepoint_max)

  abbrev pub ongoing_merged : Predictor D → Bool
  ongoing_merged p = not (eqb_ℤ p.long_period_begin timepoint_max)

module _ {D : Type 0} ⦃d : Double D⦄ where
  -- The constructor, with `numeric_limits<double>::max()` as an argument.
  unfoldable pub predictor : D → D → Predictor D
  predictor thres double_max = record {
    merge_thres = thres;
    period_begin = timepoint_max;
    long_period_begin = timepoint_max;
    long_period_end = timepoint_min;
    normal_records = record_keeper predict_max_keep;
    long_records = record_keeper predict_max_keep;
    upperbound = double_max;
  }

  -- The length of a period, in milliseconds.
  unfoldable pub duration : Timepoint → Timepoint → D
  duration end begin = d.of_us (microseconds (since end begin))

  unfoldable pub record_stop : Predictor D → Timepoint → Predictor D
  record_stop p now =
      if ongoing_unmerged p
      then record p {
        normal_records = add p.normal_records (duration now p.period_begin) now;
        long_period_end = now;
        long_records = add p.long_records (duration now p.long_period_begin) now;
        period_begin = timepoint_max;
      }
      else record p { period_begin = timepoint_max }

  unfoldable pub record_start : Predictor D → Timepoint → Predictor D
  record_start p now =
      if not (ongoing_unmerged p)
      then if not (ongoing_merged p) || d.lt p.merge_thres (duration now p.long_period_end)
        then record p {
          period_begin = now;
          long_period_begin = now;
          long_period_end = timepoint_min;
        }
        else record p { period_begin = now }
      else p

  unfoldable pub interrupt : Predictor D → Predictor D
  interrupt p = record p {
    period_begin = timepoint_max;
    long_period_begin = timepoint_max;
    long_period_end = timepoint_min;
  }

  unfoldable pub predict_unmerged : Predictor D → Timepoint → D × Predictor D
  predict_unmerged p now =
      let kept = drop_outdated p.normal_records now in
      (get_max kept, record p { normal_records = kept })

  unfoldable pub predict_merged : Predictor D → Timepoint → D × Predictor D
  predict_merged p now =
      let kept = drop_outdated p.long_records now in
      (get_max kept, record p { long_records = kept })

  unfoldable pub set_upperbound : Predictor D → D → Predictor D
  set_upperbound p bound = record p { upperbound = bound }

  unfoldable pub reset : Predictor D → Predictor D
  reset p = record p {
    normal_records = clear p.normal_records;
    long_records = clear p.long_records;
    period_begin = timepoint_max;
    long_period_begin = timepoint_max;
    long_period_end = timepoint_min;
  }
