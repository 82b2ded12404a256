-- ===== src/Monitoring/Endpoints/Stuck.antt =====
-- services/monitoring/app.py on a database that gives times back without their zone, as SQLite does,
-- and PostgreSQL for a TIMESTAMP without one, which the column type DateTime stands for.
use delivery_time_prediction.Prelude.{
  ℕ, zero, suc, ◌<◌, String, ◌≡◌, refl, ap, Bool, false, ◌==◌, ◌⊎◌, inl, inr, Option, none, List,
  [], ◌∷◌, ◌++◌, All, arith, any, find?, select, Bool-cases, Option-cases, map, concat,
}
use delivery_time_prediction.Prelude.Float.{Float}
use delivery_time_prediction.Core.Result.{Exception, err, http, type_error}
use delivery_time_prediction.Core.Session.{
  get_session-err, bind_keeps, get_session_keeps, step_ok, step_err, pure, lift,
}
use delivery_time_prediction.Core.DateTime.{naive, subtract}
use delivery_time_prediction.Monitoring.{DriftReport, MonitoringDb, FloatOps, Format, Database}
use delivery_time_prediction.Monitoring.Predictions.{
  LogPredictionRequest, new_log, add_log, log_prediction, is_labelled, awaits, join_actual,
}
use delivery_time_prediction.Monitoring.Performance.{
  PerformanceMetrics, metrics_of, compute_rolling_metrics,
}
use delivery_time_prediction.Monitoring.Drift.{
  ReportDraw, add_reports, drift_reports, run_drift_check, get_latest_drift_reports,
}
use delivery_time_prediction.Monitoring.Gate.{
  GateConfig, is_trigger, cooldown_of, add_decision, decide, decision_of, result_of,
  config_or_default, evaluate_gate,
}
use delivery_time_prediction.Monitoring.Gate.Decides.{decision_of-few}
use delivery_time_prediction.Monitoring.Endpoints.{
  LogActualRequest, DriftCheckRequest, log_prediction_endpoint, log_actual_endpoint, answer_actual,
  drift_check_endpoint, shown_report, evaluate_gate_endpoint,
}

-- No prediction has an actual time, and the gate has never triggered.
abbrev pub IsBlind : MonitoringDb → Type 0
IsBlind db =
    All (λ p. is_labelled p ≡ false) db.predictions × All (λ d. is_trigger d ≡ false) db.decisions

All-snoc :
    {A : Type 0} (P : A → Type 0) (xs : List A) (x : A) → All P xs → P x → All P (xs ++ x ∷ [])
All-snoc P [] x h p = (p, tt)
All-snoc P (y ∷ xs) x (q, h) p = (q, All-snoc P xs x h p)

select-none :
    {A : Type 0} (p : A → Bool) (xs : List A) → All (λ x. p x ≡ false) xs → select p xs ≡ []
select-none p [] h = refl
select-none p (x ∷ xs) (e, h) = rw e (select-none p xs h)

module _ (psi : List Float → List Float → ℕ → Float) (ops : FloatOps) (format : Format)
    (database : Database) where
  -- The databases that the handlers make, one call after the other, from an empty one, where every
  -- gate asks for at least one sample.
  pub data Reached : MonitoringDb → Type 0 where
    empty : Reached (record { predictions = []; reports = []; decisions = [] })
    predicted :
        {db : MonitoringDb} (request : LogPredictionRequest) (prediction_id : String) (now : ℕ)
        → Reached db
        → Reached (log_prediction_endpoint request prediction_id now db).1
    delivered :
        {db : MonitoringDb} (request : LogActualRequest) (now : ℕ)
        → Reached db
        → Reached (log_actual_endpoint ops format database request now db).1
    checked :
        {db : MonitoringDb} (request : DriftCheckRequest) (draws : ℕ → ReportDraw)
        → Reached db
        → Reached (drift_check_endpoint psi ops request draws db).1
    evaluated :
        {db : MonitoringDb} (config : Option GateConfig) (decision_id : String) (now : ℕ)
        → 0 < (config_or_default ops format database config).min_samples
        → Reached db
        → Reached (evaluate_gate_endpoint ops format database config decision_id now db).1

  predicted-IsBlind :
      (request : LogPredictionRequest) (prediction_id : String) (now : ℕ) (db : MonitoringDb)
      → IsBlind db
      → IsBlind (log_prediction_endpoint request prediction_id now db).1
  unfolding log_prediction_endpoint log_prediction add_log
  predicted-IsBlind request prediction_id now db (h, k) =
      let log = new_log request prediction_id now in
      get_session_keeps IsBlind _ db (h, k)
        (bind_keeps IsBlind (log_prediction request prediction_id now)
          (λ l. pure (record { prediction_id = l.prediction_id; order_id = l.order_id })) db
          (bind_keeps IsBlind (add_log log) (λ _. pure log) db
            (elim (Bool-cases (any (λ old. old.prediction_id == prediction_id) db.predictions)) [
              | inl e ↦ rw (add_log, e) (h, k)
              | inr e ↦ rw (add_log, e) (All-snoc _ db.predictions log h refl, k)
            ])
            (λ _ db' h'. h'))
          (λ log' db' h'. h'))

  add_reports-IsBlind :
      (rs : List DriftReport) (db : MonitoringDb)
      → IsBlind db
      → IsBlind (add_reports psi ops rs db).1
  unfolding add_reports
  add_reports-IsBlind [] db h = h
  add_reports-IsBlind (r ∷ rs) db h =
      elim (Bool-cases (any (λ old. old.report_id == r.report_id) db.reports)) [
        | inl e ↦ rw (add_reports, e) h
        | inr e ↦
            rw (add_reports, e)
              (add_reports-IsBlind rs (record db { reports = db.reports ++ r ∷ [] }) h)
      ]

  checked-IsBlind :
      (request : DriftCheckRequest) (draws : ℕ → ReportDraw) (db : MonitoringDb)
      → IsBlind db
      → IsBlind (drift_check_endpoint psi ops request draws db).1
  unfolding drift_check_endpoint run_drift_check
  checked-IsBlind request draws db h =
      let rs =
        drift_reports psi ops request.reference_data request.current_data request.threshold draws
          0 in
      get_session_keeps IsBlind _ db h (
        bind_keeps IsBlind
          (run_drift_check psi ops request.reference_data request.current_data request.threshold
            draws)
          (λ reports. pure (map shown_report reports)) db
          (bind_keeps IsBlind (add_reports psi ops rs) (λ _. pure rs) db
            (add_reports-IsBlind rs db h) (λ _ db' h'. h'))
          (λ reports db' h'. h'))

  gate_keeps :
      (reports : List DriftReport) (performance : PerformanceMetrics) (config : Option GateConfig)
      (decision_id : String) (now : ℕ) (db : MonitoringDb)
      → performance.labelled_count < (config_or_default ops format database config).min_samples
      → IsBlind db
      → IsBlind (evaluate_gate ops format database reports performance config decision_id now db).1
  unfolding evaluate_gate decide add_decision
  gate_keeps reports performance config decision_id now db few (h, k) =
      let c = config_or_default ops format database config in
      bind_keeps IsBlind
        (lift (
          cooldown_of ops format database c now
            (database.latest_decisions (select is_trigger db.decisions))))
        (decide ops format database reports performance c decision_id now) db (h, k)
        λ cool db' (h', k').
          let d = decision_of ops format database reports performance c cool decision_id now in
          let result = result_of ops format database reports performance c cool in
          bind_keeps IsBlind (add_decision ops format database d) (λ _. pure result) db'
            (elim (Bool-cases (any (λ old. old.decision_id == d.decision_id) db'.decisions)) [
              | inl e ↦ rw (add_decision, e) (h', k')
              | inr e ↦
                  rw (add_decision, e)
                    (
                      h',
                      All-snoc (λ d. is_trigger d ≡ false) db'.decisions d k'
                          (decision_of-few ops format database reports performance c cool
                            decision_id now few),
                    )
            ])
            (λ _ db'' h''. h'')

  module _ (fetch-naive : (t : ℕ) → database.fetch t ≡ naive t) where
    -- A label is refused, whatever the database holds: there is no row, or the lag is a TypeError.
    log_actual_endpoint-refused :
        (request : LogActualRequest) (now : ℕ) (db : MonitoringDb)
        → (e : Exception) × (log_actual_endpoint ops format database request now db ≡ (err e, db))
          × ((find? (awaits request.order_id) db.predictions ≡ none) ⊎ (e ≡ type_error))
    unfolding log_actual_endpoint join_actual subtract
    log_actual_endpoint-refused request now db =
        elim (Option-cases (find? (awaits request.order_id) db.predictions)) [
          | inl e ↦ (
            http 404 (concat ("No unmatched prediction found for order " ∷ request.order_id ∷ [])),
            get_session-err _ db _ (
                ap (λ p. p.0)
                  (step_ok (join_actual ops database request.order_id request.actual_minutes now)
                    (answer_actual ops format database request) db db none
                    (rw (join_actual, e) refl))),
            inl e,
          )
          | inr (log, e) ↦ (
            type_error,
            get_session-err _ db _ (
                ap (λ p. p.0)
                  (step_err (join_actual ops database request.order_id request.actual_minutes now)
                    (answer_actual ops format database request) db db type_error
                    (rw (join_actual, e, fetch-naive log.predicted_at) refl))),
            inr refl,
          )
        ]

    -- Without a label there is no sample.
    blind_metrics :
        (window : ℕ) (db : MonitoringDb)
        → database.latest_predictions [] ≡ []
        → IsBlind db
        → (compute_rolling_metrics ops database window db).labelled_count ≡ 0
    unfolding compute_rolling_metrics metrics_of
    blind_metrics zero db none_ (h, k) = refl
    blind_metrics (suc n) db none_ (h, k) =
        rw (compute_rolling_metrics, select-none is_labelled db.predictions h, none_) refl

    evaluated-IsBlind :
        (config : Option GateConfig) (decision_id : String) (now : ℕ) (db : MonitoringDb)
        → database.latest_predictions [] ≡ []
        → 0 < (config_or_default ops format database config).min_samples
        → IsBlind db
        → IsBlind (evaluate_gate_endpoint ops format database config decision_id now db).1
    unfolding evaluate_gate_endpoint
    evaluated-IsBlind config decision_id now db none_ positive (h, k) =
        let reports = get_latest_drift_reports database 20 db in
        let performance = compute_rolling_metrics ops database 200 db in
        get_session_keeps IsBlind _ db (h, k)
          (gate_keeps reports performance config decision_id now db
            (omega (arith, blind_metrics 200 db none_ (h, k), positive)) (h, k))

    delivered-IsBlind :
        (request : LogActualRequest) (now : ℕ) (db : MonitoringDb)
        → IsBlind db
        → IsBlind (log_actual_endpoint ops format database request now db).1
    delivered-IsBlind request now db h =
        let (e, refused, _) = log_actual_endpoint-refused request now db in rw refused h

    Reached-IsBlind :
        {db : MonitoringDb} → database.latest_predictions [] ≡ [] → Reached db → IsBlind db
    Reached-IsBlind none_ empty = (tt, tt)
    Reached-IsBlind none_ (predicted {db} request prediction_id now r) =
        predicted-IsBlind request prediction_id now db (Reached-IsBlind none_ r)
    Reached-IsBlind none_ (delivered {db} request now r) =
        delivered-IsBlind request now db (Reached-IsBlind none_ r)
    Reached-IsBlind none_ (checked {db} request draws r) =
        checked-IsBlind request draws db (Reached-IsBlind none_ r)
    Reached-IsBlind none_ (evaluated {db} config decision_id now positive r) =
        evaluated-IsBlind config decision_id now db none_ positive (Reached-IsBlind none_ r)

    -- Where the database gives times back without their zone, the service never learns and never
    -- retrains: after any calls, with gates that ask for at least one sample, no prediction has its
    -- actual time and no decision has triggered; a label is refused, and changes nothing, with a
    -- TypeError if its order has a prediction.
    pub labels_never_arrive :
        (db : MonitoringDb) (request : LogActualRequest) (now : ℕ)
        → database.latest_predictions [] ≡ []
        → Reached db
        → All (λ p. is_labelled p ≡ false) db.predictions
          × All (λ d. is_trigger d ≡ false) db.decisions
          × (e : Exception) × (log_actual_endpoint ops format database request now db ≡ (err e, db))
          × ((find? (awaits request.order_id) db.predictions ≡ none) ⊎ (e ≡ type_error))
    labels_never_arrive db request now none_ r =
        let (h, k) = Reached-IsBlind none_ r in
        let (e, refused, why) = log_actual_endpoint-refused request now db in
        (h, k, e, refused, why)
