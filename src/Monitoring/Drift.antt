-- ===== src/Monitoring/Drift.antt =====
-- services/monitoring/drift_detector.py. What numpy computes of two samples is given from outside.
pub mod Reports
use delivery_time_prediction.Prelude.{
  ℕ, ◌+◌, String, Bool, true, false, ◌||◌, none, some, List, [], ◌∷◌, ◌++◌, ◌==◌, any, take, length,
  ltb, if◌then◌else◌,
}
use delivery_time_prediction.Prelude.Dict.{Dict, lookup}
use delivery_time_prediction.Prelude.Int.{ltb_ℤ}
use delivery_time_prediction.Prelude.Float.{Float, float}
use delivery_time_prediction.Core.Result.{ok, err, integrity_error}
use delivery_time_prediction.Core.Session.{Session, pure, ◌>>◌}
use delivery_time_prediction.Monitoring.{DriftReport, MonitoringDb, FloatOps, Database}

-- What `detect_drift` returns of a feature.
pub record DriftResult : Type 0 where
  pub psi_score : Float
  pub threshold : Float
  pub is_drifted : Bool
  pub sample_size : ℕ

-- What uuid4 and the clock give to one report.
pub record ReportDraw : Type 0 where
  pub report_id : String
  pub now : ℕ

abbrev pub default_bins : ℕ
default_bins = 10

-- `psi` is the sum over the bins of the two samples, with epsilon = 1e-4.
module _ (psi : List Float → List Float → ℕ → Float) (ops : FloatOps) where
  pub compute_psi : List Float → List Float → ℕ → Float
  compute_psi reference current bins =
      if ltb (length reference) bins || ltb (length current) bins
      then float 0
      else let score = psi reference current bins in
        if ltb_ℤ score (float 0) then float 0 else score

  pub detect_drift : List Float → List Float → Float → DriftResult
  detect_drift reference current threshold =
      let psi_score = compute_psi reference current default_bins in
      record {
        psi_score = ops.round psi_score 6;
        threshold = threshold;
        is_drifted = ltb_ℤ threshold psi_score;
        sample_size = length current;
      }

  abbrev pub report_of : String → List Float → List Float → Float → ReportDraw → DriftReport
  report_of feature_name reference current threshold draw =
      let result = detect_drift reference current threshold in
      record {
        report_id = draw.report_id;
        feature_name = feature_name;
        psi_score = result.psi_score;
        threshold = threshold;
        is_drifted = result.is_drifted;
        sample_size = result.sample_size;
        computed_at = draw.now;
      }

  -- `current_data.get(feature_name, [])`
  abbrev pub values : String → Dict (List Float) → List Float
  values feature_name current_data = elim (lookup feature_name current_data) [
    | none ↦ []
    | some v ↦ v
  ]

  -- The loop over the features of the reference; `draws` gives to each report by its number.
  pub drift_reports :
      Dict (List Float) → Dict (List Float) → Float → (ℕ → ReportDraw) → ℕ → List DriftReport
  drift_reports [] current_data threshold draws n = []
  drift_reports ((feature_name, reference) ∷ rest) current_data threshold draws n =
      let current = values feature_name current_data in
      let skipped = drift_reports rest current_data threshold draws n in
      let others = drift_reports rest current_data threshold draws (n + 1) in
      if ltb (length current) 10
      then skipped
      else report_of feature_name reference current threshold (draws n) ∷ others

  -- `session.add(report)` for each report, and `session.flush()`.
  unfoldable pub add_reports : List DriftReport → Session MonitoringDb (Unit {0})
  add_reports [] db = (ok tt, db)
  add_reports (r ∷ rs) db = elim (any (λ old. old.report_id == r.report_id) db.reports) [
    | true ↦ (err integrity_error, db)
    | false ↦ add_reports rs (record db { reports = db.reports ++ r ∷ [] })
  ]

  unfoldable pub run_drift_check :
      Dict (List Float)
      → Dict (List Float)
      → Float
      → (ℕ → ReportDraw)
      → Session MonitoringDb (List DriftReport)
  run_drift_check reference_data current_data threshold draws =
      let reports = drift_reports reference_data current_data threshold draws 0 in
      add_reports reports >> pure reports

pub get_latest_drift_reports : Database → ℕ → MonitoringDb → List DriftReport
get_latest_drift_reports database limit db = take limit (database.latest_reports db.reports)
