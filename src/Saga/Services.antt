-- ===== src/Saga/Services.antt =====
-- The services that `SagaOrchestrator` is constructed with, as its interface describes them. They
-- are given from outside, so they are any functions on a world `W`, and may raise.
use delivery_time_prediction.Prelude.{ℕ, String, Bool, true, false, Option, none, some, List, ◌||◌}
use delivery_time_prediction.Prelude.Float.{Float}
use delivery_time_prediction.Core.Result.{Exception, Result, ok, err, key_error}

-- What a dict holds under a key: nothing, None, or a value.
pub data Field (A : Type 0) : Type 0 where
  absent : Field A
  null : Field A
  val : A → Field A

module _ {A : Type 0} where
  -- `d.get(k)`
  abbrev pub get : Field A → Option A
  get absent = none
  get null = none
  get (val a) = some a

  -- `d.get(k, default)`
  abbrev pub get_or : Field A → A → Option A
  get_or absent d = some d
  get_or null d = none
  get_or (val a) d = some a

  -- `d[k]`
  abbrev pub item : String → Field A → Result (Option A)
  item k absent = err (key_error k)
  item k null = ok none
  item k (val a) = ok (some a)

  -- `k in d`
  abbrev pub has_key : Field A → Bool
  has_key absent = false
  has_key null = true
  has_key (val a) = true

pub record PaymentResult : Type 0 where
  pub status : Field String
  pub payment_id : Field String
  pub message : Field String

pub record ReserveResult : Type 0 where
  pub status : Field String
  pub reservation_id : Field String
  pub message : Field String

-- `has_others` says whether the dict has a key that the orchestrator does not read.
pub record EtaResult : Type 0 where
  pub eta_minutes : Field Float
  pub lower_bound : Field Float
  pub upper_bound : Field Float
  pub degraded : Field Bool
  pub has_others : Bool

-- A dict is true in a test if it has a key.
abbrev pub is_truthy : EtaResult → Bool
is_truthy e =
    has_key e.eta_minutes
    || (has_key e.lower_bound || (has_key e.upper_bound || (has_key e.degraded || e.has_others)))

-- The keyword arguments that a confirmation adds to `update_status`.
pub record EtaUpdate : Type 0 where
  pub eta_minutes : Option Float
  pub eta_lower : Option Float
  pub eta_upper : Option Float
  pub degraded : Bool

-- `order.update_status(order_id=..., new_status=..., ...)`
pub record StatusUpdate : Type 0 where
  pub order_id : String
  pub new_status : String
  pub eta : Option EtaUpdate

-- `clock` is `datetime.now(UTC)`, `str` and `str_float` are Python's `str` of an exception and of a
-- number or None, and `D` is the type of the dict that is handed on to the ETA service.
pub record Services (W D : Type 0) : Type 0 where
  pub clock : W → ℕ
  pub str : Exception → String
  pub str_float : Option Float → String
  pub no_data : D
  pub authorize : String → Float → String → W → Result PaymentResult × W
  pub refund : String → String → String → W → Result PaymentResult × W
  pub reserve : String → List String → String → W → Result ReserveResult × W
  pub eta : Option (D → W → Result (Option EtaResult) × W)
  pub order : Option (StatusUpdate → W → Result (Unit {0}) × W)
