-- ===== src/Monitoring/Performance/Bounds.antt =====
-- services/monitoring/performance_tracker.py: the bounds of the metrics.
use delivery_time_prediction.Prelude.{ℕ, ◌≤◌, ◌<◌}
use delivery_time_prediction.Prelude.Int.{◌≤ℤ◌}
use delivery_time_prediction.Prelude.Float.{Float, float}
use delivery_time_prediction.Monitoring.{FloatOps}
use delivery_time_prediction.Monitoring.Performance.{rate}

-- A number from 0 to 1.
abbrev pub IsRate : Float → Type 0
IsRate x = (float 0 ≤ℤ x) × (x ≤ℤ float 1)

-- A quotient of two counts, of which the first is at most the second, is rounded to such a number.
abbrev pub DividesCounts : FloatOps → Type 0
DividesCounts ops = (a b : ℕ) → a ≤ b → 0 < b → IsRate (rate ops a b)
