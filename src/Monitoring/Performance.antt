-- ===== src/Monitoring/Performance.antt =====
-- services/monitoring/performance_tracker.py.
pub mod Bounds
use delivery_time_prediction.Prelude.{
  ℕ, ◌+◌, suc, zero, Bool, true, false, ◌&&◌, Option, none, some, List, [], ◌∷◌, ◌++◌, select, take,
  length, if◌then◌else◌,
}
use delivery_time_prediction.Prelude.Int.{neg, ltb_ℤ, leb_ℤ}
use delivery_time_prediction.Prelude.Float.{Float, float}
use delivery_time_prediction.Monitoring.{PredictionLog, MonitoringDb, FloatOps, Database}
use delivery_time_prediction.Monitoring.Predictions.{is_labelled}

pub record PerformanceMetrics : Type 0 where
  pub mae : Float
  pub late_rate : Float
  pub interval_coverage : Float
  pub sample_count : ℕ
  pub labelled_count : ℕ

abbrev pub late_threshold_minutes : Float
late_threshold_minutes = float 5

-- The variables of the loop.
pub record Tally : Type 0 where
  pub errors : List Float
  pub late_count : ℕ
  pub in_interval_count : ℕ
  pub has_interval_count : ℕ

abbrev pub abs : Float → Float
abs x = if ltb_ℤ x (float 0) then neg x else x

module _ (ops : FloatOps) where
  abbrev pub is_late : Float → PredictionLog → Bool
  is_late actual p = ltb_ℤ (ops.add p.eta_minutes late_threshold_minutes) actual

  -- Both bounds, where the row has them.
  abbrev pub interval : PredictionLog → Option (Float × Float)
  interval p = elim p.lower_bound [
    | none ↦ none
    | some lower ↦ elim p.upper_bound [ none ↦ none | some upper ↦ some (lower, upper) ]
  ]

  abbrev pub is_inside : Float → Float × Float → Bool
  is_inside actual (lower, upper) = leb_ℤ lower actual && leb_ℤ actual upper

  -- One round of the loop, for a row with its actual time.
  pub tally_one : Float → PredictionLog → Tally → Tally
  tally_one actual p t = record {
    errors = t.errors ++ abs (ops.subtract actual p.eta_minutes) ∷ [];
    late_count = if is_late actual p then suc t.late_count else t.late_count;
    in_interval_count = elim (interval p) [
      | none ↦ t.in_interval_count
      | some i ↦ if is_inside actual i then suc t.in_interval_count else t.in_interval_count
    ];
    has_interval_count = elim (interval p) [
      | none ↦ t.has_interval_count
      | some i ↦ suc t.has_interval_count
    ];
  }

  -- The query gives only rows that have an actual time.
  pub tally : List PredictionLog → Tally → Tally
  tally [] t = t
  tally (p ∷ ps) t = elim p.actual_minutes [
    | none ↦ tally ps t
    | some actual ↦ tally ps (tally_one actual p t)
  ]

  abbrev pub no_tally : Tally
  no_tally = record { errors = []; late_count = 0; in_interval_count = 0; has_interval_count = 0 }

  -- `round(a / b, 4)` of two integers.
  abbrev pub rate : ℕ → ℕ → Float
  rate a b = ops.round (ops.divide (float a) (float b)) 4

  -- The metrics of the labelled rows, where `total` rows are in the window.
  unfoldable pub metrics_of : List PredictionLog → ℕ → PerformanceMetrics
  metrics_of [] total = record {
    mae = float 0;
    late_rate = float 0;
    interval_coverage = float 0;
    sample_count = total;
    labelled_count = 0;
  }
  metrics_of (p ∷ ps) total =
      let t = tally (p ∷ ps) no_tally in
      record {
        mae = ops.round (ops.divide (ops.sum t.errors) (float (length (p ∷ ps)))) 4;
        late_rate = rate t.late_count (length (p ∷ ps));
        interval_coverage = elim t.has_interval_count [
          | zero ↦ ops.round (float 0) 4
          | suc n ↦ rate t.in_interval_count (suc n)
        ];
        sample_count = total;
        labelled_count = length (p ∷ ps);
      }

  unfoldable pub compute_rolling_metrics : Database → ℕ → MonitoringDb → PerformanceMetrics
  compute_rolling_metrics database window_size db =
      metrics_of
        (take window_size (database.latest_predictions (select is_labelled db.predictions)))
        (length (take window_size (database.latest_predictions db.predictions)))
