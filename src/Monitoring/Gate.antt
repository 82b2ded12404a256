-- ===== src/Monitoring/Gate.antt =====
-- services/monitoring/retrain_gate.py.
pub mod Decides
use delivery_time_prediction.Prelude.{
  ℕ, ◌*◌, ◌^◌, String, Bool, true, false, not, ◌&&◌, ◌||◌, Option, none, some, List, [], ◌∷◌, ◌++◌,
  ◌==◌, any, map, select, concat, length, ltb, leb, if◌then◌else◌,
}
use delivery_time_prediction.Prelude.Int.{pos, ltb_ℤ, leb_ℤ}
use delivery_time_prediction.Prelude.Float.{Float, float}
use delivery_time_prediction.Core.Result.{Result, ok, err, integrity_error}
use delivery_time_prediction.Core.Session.{Session, pure, lift, ◌>>=◌, ◌>>◌}
use delivery_time_prediction.Core.DateTime.{aware, subtract}
use delivery_time_prediction.Monitoring.{
  DriftReport, GateDetails, RetrainDecision, MonitoringDb, FloatOps, Format, Database,
}
use delivery_time_prediction.Monitoring.Performance.{PerformanceMetrics}

pub record GateConfig : Type 0 where
  pub psi_threshold : Float
  pub mae_degradation_factor : Float
  pub baseline_mae : Float
  pub late_rate_threshold : Float
  pub min_samples : ℕ
  pub cooldown_seconds : Float

-- The doubles 0.2, 1.15 and 7.5.
abbrev float_0_2 : Float
float_0_2 = pos (3_602_879_701_896_397 * 2 ^ 1020)

abbrev float_1_15 : Float
float_1_15 = pos (2_589_569_785_738_035 * 2 ^ 1023)

abbrev float_7_5 : Float
float_7_5 = pos (15 * 2 ^ 1073)

pub default_config : GateConfig
default_config = record {
  psi_threshold = float_0_2;
  mae_degradation_factor = float_1_15;
  baseline_mae = float_7_5;
  late_rate_threshold = float_0_2;
  min_samples = 200;
  cooldown_seconds = float 3600;
}

pub record GateResult : Type 0 where
  pub triggered : Bool
  pub reason : String
  pub details : GateDetails

abbrev pub is_drifted_report : DriftReport → Bool
is_drifted_report r = r.is_drifted

abbrev pub is_trigger : RetrainDecision → Bool
is_trigger d = d.gate_result == "TRIGGERED"

-- "; ".join(reasons)
semicolons : List String → String
semicolons [] = ""
semicolons (r ∷ []) = r
semicolons (r ∷ s ∷ rs) = concat (r ∷ "; " ∷ semicolons (s ∷ rs) ∷ [])

-- The reason, if the condition fails.
abbrev unless : Bool → String → List String → List String
unless condition reason reasons = if condition then reasons else reason ∷ reasons

module _ (ops : FloatOps) (format : Format) (database : Database) where
  abbrev pub mae_threshold : GateConfig → Float
  mae_threshold config = ops.multiply config.baseline_mae config.mae_degradation_factor

  abbrev pub is_degraded : PerformanceMetrics → GateConfig → Bool
  is_degraded performance config =
      ltb_ℤ (mae_threshold config) performance.mae
      || ltb_ℤ config.late_rate_threshold performance.late_rate

  -- `elapsed >= config.cooldown_seconds` for the first of the triggers in the database's order.
  pub cooldown_of : GateConfig → ℕ → List RetrainDecision → Result Bool
  cooldown_of config now [] = ok true
  cooldown_of config now (last_trigger ∷ ds) =
      elim (subtract (aware now) (database.fetch last_trigger.decided_at)) [
        | err e ↦ err e
        | ok elapsed ↦ ok (leb_ℤ config.cooldown_seconds (ops.total_seconds elapsed))
      ]

  -- The text of MAE and late rate.
  abbrev figures : PerformanceMetrics → String
  figures performance = concat (
      "MAE="
      ∷ format.fixed performance.mae
      ∷ ", late_rate="
      ∷ format.percent performance.late_rate
      ∷ [])

  pub reason_of : List String → Bool → Bool → Bool → Bool → PerformanceMetrics → GateConfig → String
  reason_of drifted_names drift_detected perf_degraded enough_samples cooldown_ok performance
        config =
      if drift_detected && (perf_degraded && (enough_samples && cooldown_ok))
      then concat
          ("TRIGGERED: drift on " ∷ format.repr drifted_names ∷ ", " ∷ figures performance ∷ [])
      else concat (
          "SUPPRESSED: "
          ∷ semicolons (
              unless drift_detected "no significant drift detected" (
                unless perf_degraded
                  (concat ("performance within bounds (" ∷ figures performance ∷ ")" ∷ []))
                  (unless enough_samples
                    (concat (
                      "insufficient samples ("
                      ∷ format.decimal performance.labelled_count
                      ∷ "/"
                      ∷ format.decimal config.min_samples
                      ∷ ")"
                      ∷ []))
                    (unless cooldown_ok "cooldown not elapsed" []))))
          ∷ [])

  -- `session.add(decision)` and `session.flush()`
  unfoldable pub add_decision : RetrainDecision → Session MonitoringDb (Unit {0})
  add_decision d db =
      if any (λ old. old.decision_id == d.decision_id) db.decisions
      then (err integrity_error, db)
      else (ok tt, record db { decisions = db.decisions ++ d ∷ [] })

  abbrev pub drift_found : List DriftReport → Bool
  drift_found reports = ltb 0 (length (select is_drifted_report reports))

  abbrev pub enough : PerformanceMetrics → GateConfig → Bool
  enough performance config = leb config.min_samples performance.labelled_count

  -- The compound decision, from the cooldown on.
  abbrev pub decides : List DriftReport → PerformanceMetrics → GateConfig → Bool → Bool
  decides reports performance config cooldown_ok =
      drift_found reports
      && (is_degraded performance config && (enough performance config && cooldown_ok))

  pub result_of : List DriftReport → PerformanceMetrics → GateConfig → Bool → GateResult
  result_of reports performance config cooldown_ok =
      let names = map (λ r. r.feature_name) (select is_drifted_report reports) in
      record {
        triggered = decides reports performance config cooldown_ok;
        reason =
            reason_of names (drift_found reports) (is_degraded performance config)
              (enough performance config) cooldown_ok performance config;
        details = record {
          drift_detected = drift_found reports;
          drifted_features = names;
          mae = performance.mae;
          late_rate = performance.late_rate;
          interval_coverage = performance.interval_coverage;
          labelled_count = performance.labelled_count;
          cooldown_ok = cooldown_ok;
          mae_threshold = mae_threshold config;
          late_rate_threshold = config.late_rate_threshold;
        };
      }

  -- The row that logs a decision.
  pub decision_of :
      List DriftReport → PerformanceMetrics → GateConfig → Bool → String → ℕ → RetrainDecision
  decision_of reports performance config cooldown_ok decision_id now =
      let result = result_of reports performance config cooldown_ok in
      record {
        decision_id = decision_id;
        drift_detected = drift_found reports;
        perf_degraded = is_degraded performance config;
        sample_count = performance.labelled_count;
        cooldown_ok = cooldown_ok;
        gate_result = if result.triggered then "TRIGGERED" else "SUPPRESSED";
        reason = result.reason;
        details = result.details;
        decided_at = now;
      }

  abbrev pub config_or_default : Option GateConfig → GateConfig
  config_or_default none = default_config
  config_or_default (some config) = config

  -- The decision is made by the drift reports and the metrics, and logged either way.
  unfoldable pub decide :
      List DriftReport
      → PerformanceMetrics
      → GateConfig
      → String
      → ℕ
      → Bool
      → Session MonitoringDb GateResult
  decide reports performance config decision_id now cooldown_ok =
      add_decision (decision_of reports performance config cooldown_ok decision_id now)
      >> pure (result_of reports performance config cooldown_ok)

  unfoldable pub evaluate_gate :
      List DriftReport
      → PerformanceMetrics
      → Option GateConfig
      → String
      → ℕ
      → Session MonitoringDb GateResult
  evaluate_gate reports performance config decision_id now db =
      let c = config_or_default config in
      (lift (cooldown_of c now (database.latest_decisions (select is_trigger db.decisions)))
          >>= decide reports performance c decision_id now)
        db
