-- ===== src/Monitoring/Gate/Decides.antt =====
-- services/monitoring/retrain_gate.py: when the gate triggers, and what it logs.
use delivery_time_prediction.Prelude.{
  ℕ, ◌≤◌, ◌<◌, String, ◌≡◌, ◌↔◌, refl, ap, ◌∙◌, Bool, true, false, ◌==◌, some, List, [], ◌∷◌, ◌++◌,
  if◌then◌else◌, All, arith, any, select, length, ltb, Bool-cases, ◌⊎◌, inl, inr,
}
use delivery_time_prediction.Prelude.Int.{ltb_ℤ}
use delivery_time_prediction.Core.Result.{ok, err, type_error}
use delivery_time_prediction.Core.Session.{step_ok, step_err, lift, pure}
use delivery_time_prediction.Core.DateTime.{naive, subtract}
use delivery_time_prediction.Monitoring.{
  DriftReport, RetrainDecision, MonitoringDb, FloatOps, Format, Database,
}
use delivery_time_prediction.Monitoring.Performance.{PerformanceMetrics}
use delivery_time_prediction.Monitoring.Gate.{
  GateConfig, GateResult, is_trigger, is_drifted_report, cooldown_of, add_decision, decides,
  result_of, decision_of, decide, evaluate_gate,
}

abbrev IsIn : RetrainDecision → List RetrainDecision → Type 0
IsIn d [] = ⊥
IsIn d (x ∷ xs) = (d ≡ x) ⊎ IsIn d xs

-- `ORDER BY decided_at DESC`: the first row is one of the rows, and none is later.
abbrev pub IsFirst : List RetrainDecision → List RetrainDecision → Type 0
IsFirst rows [] = rows ≡ []
IsFirst rows (first ∷ _) = IsIn first rows × All (λ d. d.decided_at ≤ first.decided_at) rows

select-any :
    (rows : List RetrainDecision) → any is_trigger rows ≡ false → select is_trigger rows ≡ []
select-any [] h = refl
select-any (d ∷ rows) h = ground (arith, select-any rows)

any-select :
    (rows : List RetrainDecision) → select is_trigger rows ≡ [] → any is_trigger rows ≡ false
any-select [] h = refl
any-select (d ∷ rows) h = elim (Bool-cases (is_trigger d)) [
  | inl e ↦ let h' : d ∷ select is_trigger rows ≡ [] = rw e at h in cc
  | inr e ↦ rw e (any-select rows (rw e at h))
]

drift_found-any :
    (reports : List DriftReport)
    → ltb 0 (length (select is_drifted_report reports)) ≡ any is_drifted_report reports
drift_found-any [] = refl
drift_found-any (r ∷ reports) = ground (arith, drift_found-any reports)

module _ (ops : FloatOps) (format : Format) (database : Database)
    (fetch-naive : (t : ℕ) → database.fetch t ≡ naive t) (config : GateConfig) (now : ℕ) where
  -- The cooldown is over if there was no trigger, and cannot be computed if there was one.
  cooldown_of-naive :
      (rows ds : List RetrainDecision)
      → IsFirst (select is_trigger rows) ds
      → cooldown_of ops format database config now ds
        ≡ (if any is_trigger rows then err type_error else ok true)
  unfolding cooldown_of subtract
  cooldown_of-naive rows [] none_ = rw (cooldown_of, any-select rows none_) refl
  cooldown_of-naive rows (first ∷ ds) (is_in, latest) = elim (Bool-cases (any is_trigger rows)) [
    | inl e ↦ rw (e, cooldown_of, fetch-naive first.decided_at) refl
    | inr e ↦ absurd (rw (select-any rows e) at is_in)
  ]

  module _ (reports : List DriftReport) (performance : PerformanceMetrics) (decision_id : String)
      (db : MonitoringDb) where
    abbrev after : Bool → MonitoringDb
    after cool = record db {
      decisions =
          db.decisions
          ++ decision_of ops format database reports performance config cool decision_id now ∷ [];
    }

    decide-accepted :
        (cool : Bool)
        → any (λ old. old.decision_id == decision_id) db.decisions ≡ false
        → decide ops format database reports performance config decision_id now cool db
          ≡ (ok (result_of ops format database reports performance config cool), after cool)
    unfolding decide add_decision decision_of
    decide-accepted cool fresh =
        let d = decision_of ops format database reports performance config cool decision_id now in
        step_ok (add_decision ops format database d)
          (λ _. pure (result_of ops format database reports performance config cool)) db
          (after cool) tt (rw (add_decision, fresh) refl)

    decision_of-triggered :
        (cool : Bool)
        → is_trigger
            (decision_of ops format database reports performance config cool decision_id now)
          ≡ (result_of ops format database reports performance config cool).triggered
    unfolding decision_of result_of
    decision_of-triggered cool =
        elim (Bool-cases (decides ops format database reports performance config cool)) [
          | inl e ↦ rw (decision_of, result_of, e) refl
          | inr e ↦ rw (decision_of, result_of, e) refl
        ]

    -- Where the database gives times back without their zone, as a DateTime column does, puts the
    -- latest trigger first, and the row's identifier is new: while no decision was a trigger, the gate
    -- triggers exactly when some feature has drifted, the performance has degraded, and there are
    -- enough labelled samples, and the decision is logged either way, as it was taken. Once a decision
    -- was a trigger, every evaluation raises a TypeError and logs nothing.
    pub evaluate_gate-Decides :
        IsFirst
          (select is_trigger db.decisions)
          (database.latest_decisions (select is_trigger db.decisions))
        → any (λ old. old.decision_id == decision_id) db.decisions ≡ false
        → ((any is_trigger db.decisions ≡ true)
            × (evaluate_gate ops format database reports performance
                  (some config)
                  decision_id
                  now
                  db
                ≡ (err type_error, db)))
          ⊎ ((any is_trigger db.decisions ≡ false)
              × (result : GateResult) × (d : RetrainDecision) × (evaluate_gate ops format database
                    reports performance
                    (some config)
                    decision_id
                    now
                    db
                  ≡ (ok result, record db { decisions = db.decisions ++ d ∷ [] }))
              × (is_trigger d ≡ result.triggered)
              × ((result.triggered ≡ true) ↔ (
                  (any (λ r. r.is_drifted) reports ≡ true)
                  × ((ltb_ℤ
                          (ops.multiply config.baseline_mae config.mae_degradation_factor)
                          performance.mae
                        ≡ true)
                      ⊎ (ltb_ℤ config.late_rate_threshold performance.late_rate ≡ true))
                  × (config.min_samples ≤ performance.labelled_count))))
    unfolding evaluate_gate result_of
    evaluate_gate-Decides latest fresh =
        let ds = database.latest_decisions (select is_trigger db.decisions) in
        let cooldown = lift (cooldown_of ops format database config now ds) in
        let next = decide ops format database reports performance config decision_id now in
        let e = cooldown_of-naive db.decisions ds latest in
        elim (Bool-cases (any is_trigger db.decisions)) [
          | inl t ↦ inl (t, step_err cooldown next db db type_error (ap (λ r. (r, db)) (rw t at e)))
          | inr t ↦ inr (
            t,
            result_of ops format database reports performance config true,
            decision_of ops format database reports performance config true decision_id now,
            step_ok cooldown next db db true (ap (λ r. (r, db)) (rw t at e))
                ∙ decide-accepted true fresh,
            decision_of-triggered true,
            ground (arith, drift_found-any reports),
          )
        ]

-- With too few samples the decision is no trigger, whatever else holds.
pub decision_of-few :
    (ops : FloatOps) (format : Format) (database : Database) (reports : List DriftReport)
    (performance : PerformanceMetrics) (config : GateConfig) (cool : Bool) (decision_id : String)
    (now : ℕ)
    → performance.labelled_count < config.min_samples
    → is_trigger (decision_of ops format database reports performance config cool decision_id now)
      ≡ false
unfolding decision_of result_of
decision_of-few ops format database reports performance config cool decision_id now few =
    let e : decides ops format database reports performance config cool ≡ false = ground arith in
    rw (decision_of, result_of, e) refl
