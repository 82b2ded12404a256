-- ===== src/Monitoring/Tests.antt =====
-- services/monitoring/ with a prediction that waits for its label, and doubles that do not round.
use delivery_time_prediction.Prelude.{
  ℕ, ◌≤◌, ◌≡◌, ◌↔◌, refl, true, false, none, some, List, [], ◌∷◌, ◌++◌, All, any, find?, ◌⊎◌, inl,
  concat, arith,
}
use delivery_time_prediction.Prelude.Int.{pos, neg, ◌+ℤ◌, ltb_ℤ}
use delivery_time_prediction.Prelude.Float.{Float, float}
use delivery_time_prediction.Core.Result.{Exception, ok, err, type_error}
use delivery_time_prediction.Core.DateTime.{DateTime, naive}
use delivery_time_prediction.Monitoring.{
  DriftReport, RetrainDecision, MonitoringDb, FloatOps, Format, Database,
}
use delivery_time_prediction.Monitoring.Predictions.{
  LogPredictionRequest, new_log, is_labelled, awaits,
}
use delivery_time_prediction.Monitoring.Performance.{PerformanceMetrics}
use delivery_time_prediction.Monitoring.Gate.{GateConfig, GateResult, is_trigger, evaluate_gate}
use delivery_time_prediction.Monitoring.Gate.Decides.{evaluate_gate-Decides}
use delivery_time_prediction.Monitoring.Endpoints.{
  LogActualRequest, log_actual_endpoint, log_prediction_endpoint,
}
use delivery_time_prediction.Monitoring.Endpoints.Stuck
use delivery_time_prediction.Monitoring.Endpoints.Stuck.{Reached, labels_never_arrive}

-- Every quotient is zero here.
abbrev ops : FloatOps
ops = record {
  subtract = λ a b. a +ℤ neg b;
  add = λ a b. a +ℤ b;
  multiply = λ a b. a;
  divide = λ a b. float 0;
  sum = λ xs. float 0;
  round = λ a n. a;
  total_seconds = λ t. t;
}

abbrev format : Format
format = record { fixed = λ x. "x"; percent = λ x. "x"; decimal = λ n. "n"; repr = λ xs. concat xs }

abbrev database_with : (ℕ → DateTime) → Database
database_with fetch = record {
  latest_predictions = λ rows. rows;
  latest_reports = λ rows. rows;
  latest_decisions = λ rows. rows;
  fetch = fetch;
}

abbrev request : LogPredictionRequest
request = record {
  order_id = "o1";
  model_version = "1.0.0";
  feature_schema_version = "1.0.0";
  input_features = "{}";
  eta_minutes = float 30;
  lower_bound = some (float 20);
  upper_bound = some (float 40);
  degraded = false;
  correlation_id = none;
}

abbrev report : DriftReport
report = record {
  report_id = "r1";
  feature_name = "distance";
  psi_score = float 1;
  threshold = float 0;
  is_drifted = true;
  sample_size = 10;
  computed_at = 1;
}

abbrev metrics : PerformanceMetrics
metrics = record {
  mae = float 20;
  late_rate = float 0;
  interval_coverage = float 0;
  sample_count = 5;
  labelled_count = 5;
}

abbrev config : GateConfig
config = record {
  psi_threshold = float 0;
  mae_degradation_factor = float 1;
  baseline_mae = float 7;
  late_rate_threshold = float 1;
  min_samples = 2;
  cooldown_seconds = pos 60;
}

abbrev trigger : RetrainDecision
trigger = record {
  decision_id = "g1";
  drift_detected = true;
  perf_degraded = true;
  sample_count = 5;
  cooldown_ok = true;
  gate_result = "TRIGGERED";
  reason = "";
  details = record {
    drift_detected = true;
    drifted_features = [];
    mae = float 0;
    late_rate = float 0;
    interval_coverage = float 0;
    labelled_count = 5;
    cooldown_ok = true;
    mae_threshold = float 0;
    late_rate_threshold = float 0;
  };
  decided_at = 100;
}

abbrev db : MonitoringDb
db = record {
  predictions = new_log request "p1" 5 ∷ [];
  reports = report ∷ [];
  decisions = trigger ∷ [];
}

-- The outcome of an evaluation.
abbrev DecidesOn : MonitoringDb → Type 0
DecidesOn rows =
    ((any is_trigger rows.decisions ≡ true)
      × (evaluate_gate ops format (database_with naive) (report ∷ []) metrics (some config) "g2" 150
            rows
          ≡ (err type_error, rows)))
    ⊎ ((any is_trigger rows.decisions ≡ false)
        × (result : GateResult) × (d : RetrainDecision) × (evaluate_gate ops format
              (database_with naive) (report ∷ []) metrics (some config) "g2" 150 rows
            ≡ (ok result, record rows { decisions = rows.decisions ++ d ∷ [] }))
        × (is_trigger d ≡ result.triggered)
        × ((result.triggered ≡ true) ↔ (
            (any (λ r. r.is_drifted) (report ∷ []) ≡ true)
            × ((ltb_ℤ (float 7) (float 20) ≡ true) ⊎ (ltb_ℤ (float 1) (float 0) ≡ true))
            × (2 ≤ 5))))

abbrev suppressed : RetrainDecision
suppressed = record trigger { gate_result = "SUPPRESSED" }

abbrev calm : MonitoringDb
calm = record db { decisions = suppressed ∷ [] }

evaluate_gate-Decides_example : DecidesOn calm
evaluate_gate-Decides_example =
    evaluate_gate-Decides ops format (database_with naive) (λ t. refl) config 150 (report ∷ [])
      metrics "g2" calm refl refl

-- Behind a trigger.
stuck_gate : DecidesOn db
stuck_gate =
    evaluate_gate-Decides ops format (database_with naive) (λ t. refl) config 150 (report ∷ [])
      metrics "g2" db (inl refl, (omega arith, tt)) refl

abbrev label : LogActualRequest
label = record { order_id = "o1"; actual_minutes = float 41 }

abbrev nothing : MonitoringDb
nothing = record { predictions = []; reports = []; decisions = [] }

abbrev one_prediction : MonitoringDb
one_prediction = (log_prediction_endpoint request "p1" 5 nothing).1

abbrev psi : List Float → List Float → ℕ → Float
psi reference current bins = float 1

labels_never_arrive_example :
    All (λ p. is_labelled p ≡ false) one_prediction.predictions
    × All (λ d. is_trigger d ≡ false) one_prediction.decisions
    × (e : Exception) × (log_actual_endpoint ops format (database_with naive) label 9 one_prediction
        ≡ (err e, one_prediction))
    × ((find? (awaits "o1") one_prediction.predictions ≡ none) ⊎ (e ≡ type_error))
labels_never_arrive_example =
    labels_never_arrive psi ops format (database_with naive) (λ t. refl) one_prediction label 9 refl
      (Stuck.predicted request "p1" 5 Stuck.empty)
