-- ===== src/Monitoring/Drift/Reports.antt =====
-- services/monitoring/drift_detector.py: which features a drift check reports, and what it says of
-- them.
use delivery_time_prediction.Prelude.{
  ℕ, ◌+◌, ◌<◌, ◌≡◌, refl, true, false, ◌||◌, List, [], ◌∷◌, length, ltb, select, map, arith,
  Bool-cases, inl, inr, leb, ap,
}
use delivery_time_prediction.Prelude.Dict.{Dict}
use delivery_time_prediction.Prelude.Int.{◌≤ℤ◌}
use delivery_time_prediction.Prelude.Float.{Float, float}
use delivery_time_prediction.Monitoring.{FloatOps}
use delivery_time_prediction.Monitoring.Drift.{
  ReportDraw, default_bins, compute_psi, detect_drift, values, drift_reports,
}

module _ (psi : List Float → List Float → ℕ → Float) (ops : FloatOps) where
  -- The score is not negative, and without enough values of either sample it is zero.
  pub compute_psi-bounds :
      (reference current : List Float) (bins : ℕ)
      → float 0 ≤ℤ compute_psi psi ops reference current bins
  unfolding compute_psi
  compute_psi-bounds reference current bins = ground arith

  -- Too small a reference is never found to have drifted from.
  detect_drift-small :
      (reference current : List Float) (threshold : Float)
      → length reference < default_bins
      → float 0 ≤ℤ threshold
      → (detect_drift psi ops reference current threshold).is_drifted ≡ false
  unfolding detect_drift compute_psi
  detect_drift-small reference current threshold few h =
      let e : (ltb (length reference) default_bins || ltb (length current) default_bins) ≡ true =
        ground arith in
      rw (detect_drift, compute_psi, e) (ground arith)

  -- The features with at least ten current values are reported, in the order of the reference.
  drift_reports-features :
      (reference_data current_data : Dict (List Float)) (threshold : Float) (draws : ℕ → ReportDraw)
      (n : ℕ)
      → map
          (λ r. r.feature_name)
          (drift_reports psi ops reference_data current_data threshold draws n)
        ≡ map
            (λ f. f.0)
            (select (λ f. leb 10 (length (values psi ops f.0 current_data))) reference_data)
  unfolding drift_reports
  drift_reports-features [] current_data threshold draws n = refl
  drift_reports-features ((feature_name, reference) ∷ rest) current_data threshold draws n =
      elim (Bool-cases (ltb (length (values psi ops feature_name current_data)) 10)) [
        | inl e ↦
            let e' : leb 10 (length (values psi ops feature_name current_data)) ≡ false =
              ground arith in
            rw (drift_reports, e, e') (drift_reports-features rest current_data threshold draws n)
        | inr e ↦
            let e' : leb 10 (length (values psi ops feature_name current_data)) ≡ true =
              ground arith in
            rw (drift_reports, e, e')
              (ap (◌∷◌ feature_name)
                (drift_reports-features rest current_data threshold draws (n + 1)))
      ]
