-- ===== src/Monitoring/Endpoints.antt =====
-- services/monitoring/app.py: the handlers over the modules of the service, each in one transaction.
pub mod Stuck
use delivery_time_prediction.Prelude.{
  ℕ, String, Bool, Option, none, some, List, [], ◌∷◌, map, take, concat,
}
use delivery_time_prediction.Prelude.Dict.{Dict}
use delivery_time_prediction.Prelude.Float.{Float}
use delivery_time_prediction.Core.Result.{Result, ok, err, http}
use delivery_time_prediction.Core.Session.{Session, get_session, pure, raise, query, ◌>>=◌, ◌>>◌}
use delivery_time_prediction.Monitoring.{
  PredictionLog, DriftReport, RetrainDecision, MonitoringDb, FloatOps, Format, Database,
}
use delivery_time_prediction.Monitoring.Predictions.{
  LogPredictionRequest, log_prediction, join_actual,
}
use delivery_time_prediction.Monitoring.Performance.{PerformanceMetrics, compute_rolling_metrics}
use delivery_time_prediction.Monitoring.Drift.{
  ReportDraw, run_drift_check, get_latest_drift_reports,
}
use delivery_time_prediction.Monitoring.Gate.{GateConfig, GateResult, evaluate_gate}

pub record LogActualRequest : Type 0 where
  pub order_id : String
  pub actual_minutes : Float

pub record DriftCheckRequest : Type 0 where
  pub reference_data : Dict (List Float)
  pub current_data : Dict (List Float)
  pub threshold : Float

pub record LoggedPrediction : Type 0 where
  pub prediction_id : String
  pub order_id : String

pub record LoggedActual : Type 0 where
  pub prediction_id : String
  pub order_id : String
  pub actual_minutes : Option Float
  pub label_lag_seconds : Option Float

-- A report as the endpoints show it; `computed_at` is its time as it is read.
pub record ShownReport : Type 0 where
  pub feature_name : String
  pub psi_score : Float
  pub is_drifted : Bool
  pub sample_size : ℕ

abbrev pub shown_report : DriftReport → ShownReport
shown_report r = record {
  feature_name = r.feature_name;
  psi_score = r.psi_score;
  is_drifted = r.is_drifted;
  sample_size = r.sample_size;
}

-- POST /monitoring/log-prediction
unfoldable pub log_prediction_endpoint :
    LogPredictionRequest → String → ℕ → MonitoringDb → Result LoggedPrediction × MonitoringDb
log_prediction_endpoint request prediction_id now = get_session (
    log_prediction request prediction_id now >>= λ log.
    pure (record { prediction_id = log.prediction_id; order_id = log.order_id }))

-- POST /monitoring/drift-check
unfoldable pub drift_check_endpoint :
    (List Float → List Float → ℕ → Float)
    → FloatOps
    → DriftCheckRequest
    → (ℕ → ReportDraw)
    → MonitoringDb
    → Result (List ShownReport) × MonitoringDb
drift_check_endpoint psi ops request draws = get_session (
    run_drift_check psi ops request.reference_data request.current_data request.threshold draws
    >>= λ reports. pure (map shown_report reports))

module _ (ops : FloatOps) (format : Format) (database : Database) where
  -- The answer to a label, or 404 where `join_actual` found no row.
  abbrev pub answer_actual :
      LogActualRequest → Option PredictionLog → Session MonitoringDb LoggedActual
  answer_actual request none =
      raise (http 404 (concat ("No unmatched prediction found for order " ∷ request.order_id ∷ [])))
  answer_actual request (some log) = pure (record {
    prediction_id = log.prediction_id;
    order_id = log.order_id;
    actual_minutes = log.actual_minutes;
    label_lag_seconds = log.label_lag_seconds;
  })

  -- POST /monitoring/log-actual
  unfoldable pub log_actual_endpoint :
      LogActualRequest → ℕ → MonitoringDb → Result LoggedActual × MonitoringDb
  log_actual_endpoint request now = get_session (
      join_actual ops database request.order_id request.actual_minutes now
      >>= answer_actual request)

  -- GET /monitoring/drift-report, less the times of the reports.
  pub drift_report_endpoint : MonitoringDb → Result (List ShownReport) × MonitoringDb
  drift_report_endpoint =
      get_session (query λ db. map shown_report (get_latest_drift_reports database 20 db))

  -- GET /monitoring/performance
  pub performance_endpoint : MonitoringDb → Result PerformanceMetrics × MonitoringDb
  performance_endpoint = get_session (query (compute_rolling_metrics ops database 200))

  -- GET /monitoring/retrain-decisions, with the rows as they are.
  pub retrain_decisions_endpoint : MonitoringDb → Result (List RetrainDecision) × MonitoringDb
  retrain_decisions_endpoint =
      get_session (query λ db. take 20 (database.latest_decisions db.decisions))

  -- POST /monitoring/evaluate-gate
  unfoldable pub evaluate_gate_endpoint :
      Option GateConfig → String → ℕ → MonitoringDb → Result GateResult × MonitoringDb
  evaluate_gate_endpoint config decision_id now = get_session λ db.
      evaluate_gate ops format database (get_latest_drift_reports database 20 db)
        (compute_rolling_metrics ops database 200 db) config decision_id now db
