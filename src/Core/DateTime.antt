-- ===== src/Core/DateTime.antt =====
-- Python's datetime, as far as the services use it: an instant in ticks of the clock, with a time zone
-- (always UTC) or without. `datetime.now(UTC)` has one. What a column of the type DateTime gives back
-- for the instant that it stores is SQLAlchemy's and the database's choice, and given from outside.
use delivery_time_prediction.Prelude.{ℕ}
use delivery_time_prediction.Prelude.Int.{ℤ, sub_ℕ}
use delivery_time_prediction.Core.Result.{Result, ok, err, type_error}

pub data DateTime : Type 0 where
  aware : ℕ → DateTime
  naive : ℕ → DateTime

-- `a - b`
unfoldable pub subtract : DateTime → DateTime → Result ℤ
subtract (aware a) (aware b) = ok (sub_ℕ a b)
subtract (naive a) (naive b) = ok (sub_ℕ a b)
subtract (aware a) (naive b) = err type_error
subtract (naive a) (aware b) = err type_error
