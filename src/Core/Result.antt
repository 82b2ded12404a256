-- ===== src/Core/Result.antt =====
-- What a handler does: it returns, or it raises one of the exceptions below.
use delivery_time_prediction.Prelude.{ℕ, String}

-- `http` is FastAPI's HTTPException(status_code, detail); `integrity_error` is what SQLAlchemy
-- raises when a flush breaks a UNIQUE constraint; `key_error` is a missing key of a dict;
-- `connection_error` is raised by the HTTP adapters; `value_error` is a text that an enum refuses;
-- `type_error` is an operator that does not take its operands.
pub data Exception : Type 0 where
  http : ℕ → String → Exception
  integrity_error : Exception
  key_error : String → Exception
  connection_error : String → Exception
  value_error : Exception
  type_error : Exception

pub data Result {ℓ} (A : Type ℓ) : Type ℓ where
  ok : A → Result A
  err : Exception → Result A

infixl 5 ◌>>=◌
abbrev pub ◌>>=◌ {ℓ κ} : {A : Type ℓ} {B : Type κ} → Result A → (A → Result B) → Result B
ok a >>= f = f a
err e >>= f = err e
