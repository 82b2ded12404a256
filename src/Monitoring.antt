-- ===== src/Monitoring.antt =====
-- The monitoring service (services/monitoring/): its tables (models.py), and what it takes from
-- outside. A JSON column is the value that it holds, of the features the text. Identifiers made by
-- uuid4 and readings of the clock are arguments. Times are instants in ticks of the clock, and every
-- row has its time.
pub mod Predictions
pub mod Performance
pub mod Drift
pub mod Gate
pub mod Endpoints
mod Tests
use delivery_time_prediction.Prelude.{ℕ, String, Bool, Option, List}
use delivery_time_prediction.Prelude.Int.{ℤ}
use delivery_time_prediction.Prelude.Float.{Float}
use delivery_time_prediction.Core.DateTime.{DateTime}

pub record PredictionLog : Type 0 where
  pub prediction_id : String
  pub order_id : String
  pub correlation_id : Option String
  pub model_version : String
  pub feature_schema_version : String
  pub input_features : String
  pub eta_minutes : Float
  pub lower_bound : Option Float
  pub upper_bound : Option Float
  pub degraded : Bool
  pub predicted_at : ℕ
  pub actual_minutes : Option Float
  pub delivered_at : Option ℕ
  pub label_lag_seconds : Option Float

pub record DriftReport : Type 0 where
  pub report_id : String
  pub feature_name : String
  pub psi_score : Float
  pub threshold : Float
  pub is_drifted : Bool
  pub sample_size : ℕ
  pub computed_at : ℕ

-- The dict `details` of a decision.
pub record GateDetails : Type 0 where
  pub drift_detected : Bool
  pub drifted_features : List String
  pub mae : Float
  pub late_rate : Float
  pub interval_coverage : Float
  pub labelled_count : ℕ
  pub cooldown_ok : Bool
  pub mae_threshold : Float
  pub late_rate_threshold : Float

pub record RetrainDecision : Type 0 where
  pub decision_id : String
  pub drift_detected : Bool
  pub perf_degraded : Bool
  pub sample_count : ℕ
  pub cooldown_ok : Bool
  pub gate_result : String
  pub reason : String
  pub details : GateDetails
  pub decided_at : ℕ

pub record MonitoringDb : Type 0 where
  pub predictions : List PredictionLog
  pub reports : List DriftReport
  pub decisions : List RetrainDecision

-- The arithmetic of doubles that rounds: `-`, `+`, `*`, `/`, `sum`, `round(_, digits)`, and
-- `total_seconds` of a difference of times.
pub record FloatOps : Type 0 where
  pub subtract : Float → Float → Float
  pub add : Float → Float → Float
  pub multiply : Float → Float → Float
  pub divide : Float → Float → Float
  pub sum : List Float → Float
  pub round : Float → ℕ → Float
  pub total_seconds : ℤ → Float

-- The texts of numbers and lists in an f-string: `:.2f`, `:.2%`, an integer, and a list of texts.
pub record Format : Type 0 where
  pub fixed : Float → String
  pub percent : Float → String
  pub decimal : ℕ → String
  pub repr : List String → String

-- Each `ORDER BY ... DESC` of the queries, and what a DateTime column gives back.
pub record Database : Type 0 where
  pub latest_predictions : List PredictionLog → List PredictionLog
  pub latest_reports : List DriftReport → List DriftReport
  pub latest_decisions : List RetrainDecision → List RetrainDecision
  pub fetch : ℕ → DateTime
