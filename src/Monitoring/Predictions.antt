-- ===== src/Monitoring/Predictions.antt =====
-- services/monitoring/prediction_logger.py.
use delivery_time_prediction.Prelude.{
  ℕ, String, Bool, true, false, Option, none, some, List, [], ◌∷◌, ◌++◌, ◌==◌, ◌&&◌, not, any,
  find?, select, take, modify_first, if◌then◌else◌,
}
use delivery_time_prediction.Prelude.Float.{Float}
use delivery_time_prediction.Core.Result.{ok, err, integrity_error}
use delivery_time_prediction.Core.Session.{Session, pure, ◌>>◌}
use delivery_time_prediction.Core.DateTime.{aware, subtract}
use delivery_time_prediction.Monitoring.{PredictionLog, MonitoringDb, FloatOps, Database}

-- The arguments of `log_prediction`, and the request of its endpoint.
pub record LogPredictionRequest : Type 0 where
  pub order_id : String
  pub model_version : String
  pub feature_schema_version : String
  pub input_features : String
  pub eta_minutes : Float
  pub lower_bound : Option Float
  pub upper_bound : Option Float
  pub degraded : Bool
  pub correlation_id : Option String

abbrev pub new_log : LogPredictionRequest → String → ℕ → PredictionLog
new_log request prediction_id now = record {
  prediction_id = prediction_id;
  order_id = request.order_id;
  correlation_id = request.correlation_id;
  model_version = request.model_version;
  feature_schema_version = request.feature_schema_version;
  input_features = request.input_features;
  eta_minutes = request.eta_minutes;
  lower_bound = request.lower_bound;
  upper_bound = request.upper_bound;
  degraded = request.degraded;
  predicted_at = now;
  actual_minutes = none;
  delivered_at = none;
  label_lag_seconds = none;
}

-- `session.add(log)` and `session.flush()`
unfoldable pub add_log : PredictionLog → Session MonitoringDb (Unit {0})
add_log log db =
    if any (λ old. old.prediction_id == log.prediction_id) db.predictions
    then (err integrity_error, db)
    else (ok tt, record db { predictions = db.predictions ++ log ∷ [] })

unfoldable pub log_prediction :
    LogPredictionRequest → String → ℕ → Session MonitoringDb PredictionLog
log_prediction request prediction_id now =
    let log = new_log request prediction_id now in add_log log >> pure log

-- `actual_minutes.is_not(None)`
abbrev pub is_labelled : PredictionLog → Bool
is_labelled p = elim p.actual_minutes [ none ↦ false | some _ ↦ true ]

-- The query of `join_actual`.
abbrev pub awaits : String → PredictionLog → Bool
awaits order_id p = p.order_id == order_id && not (is_labelled p)

abbrev pub labelled : Float → ℕ → Float → PredictionLog → PredictionLog
labelled actual_minutes now lag p = record p {
  actual_minutes = some actual_minutes;
  delivered_at = some now;
  label_lag_seconds = some lag;
}

module _ (ops : FloatOps) (database : Database) where
  -- An exception of the subtraction ends the block before the row is flushed.
  unfoldable pub join_actual : String → Float → ℕ → Session MonitoringDb (Option PredictionLog)
  join_actual order_id actual_minutes now db = elim (find? (awaits order_id) db.predictions) [
    | none ↦ pure none db
    | some log ↦ elim (subtract (aware now) (database.fetch log.predicted_at)) [
      | err e ↦ (err e, db)
      | ok lag ↦
          let label = labelled actual_minutes now (ops.total_seconds lag) in
          (
            ok (some (label log)),
            record db { predictions = modify_first (awaits order_id) label db.predictions },
          )
    ]
  ]

  pub get_labelled_predictions : ℕ → MonitoringDb → List PredictionLog
  get_labelled_predictions limit db =
      take limit (database.latest_predictions (select is_labelled db.predictions))

  pub get_recent_predictions : ℕ → MonitoringDb → List PredictionLog
  get_recent_predictions limit db = take limit (database.latest_predictions db.predictions)
