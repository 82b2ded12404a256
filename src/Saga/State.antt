-- ===== src/Saga/State.antt =====
-- services/orchestrator/models.py, and the states of services/orchestrator/saga_state_machine.py.
use delivery_time_prediction.Prelude.{ℕ, String, Option, List}
use delivery_time_prediction.Prelude.Float.{Float}

pub data SagaState : Type 0 where
  created payment_pending payment_ok payment_failed : SagaState
  inventory_pending inventory_ok inventory_failed : SagaState
  eta_pending eta_ok eta_failed : SagaState
  confirmed confirmed_degraded refunding refunded cancelled manual_review : SagaState

SagaState-discrete : Discrete SagaState
SagaState-discrete = hlevel

-- `.value`, the text that goes into the columns.
unfoldable pub value : SagaState → String
value created = "CREATED"
value payment_pending = "PAYMENT_PENDING"
value payment_ok = "PAYMENT_OK"
value payment_failed = "PAYMENT_FAILED"
value inventory_pending = "INVENTORY_PENDING"
value inventory_ok = "INVENTORY_OK"
value inventory_failed = "INVENTORY_FAILED"
value eta_pending = "ETA_PENDING"
value eta_ok = "ETA_OK"
value eta_failed = "ETA_FAILED"
value confirmed = "CONFIRMED"
value confirmed_degraded = "CONFIRMED_DEGRADED"
value refunding = "REFUNDING"
value refunded = "REFUNDED"
value cancelled = "CANCELLED"
value manual_review = "MANUAL_REVIEW"

pub data StepType : Type 0 where
  forward compensate : StepType

-- A row of `saga_instances`; the text column of the state holds the value of a `SagaState`.
pub record SagaInstance : Type 0 where
  pub saga_id : String
  pub order_id : String
  pub correlation_id : String
  pub current_state : SagaState
  pub payment_id : Option String
  pub reservation_id : Option String
  pub refund_id : Option String
  pub eta_minutes : Option Float
  pub eta_lower : Option Float
  pub eta_upper : Option Float
  pub degraded : ℕ
  pub started_at : ℕ
  pub updated_at : ℕ
  pub completed_at : Option ℕ
  pub error_reason : Option String

-- A row of `saga_step_logs`.
pub record SagaStepLog : Type 0 where
  pub saga_id : String
  pub step_name : String
  pub from_state : SagaState
  pub to_state : SagaState
  pub step_type : StepType
  pub detail : Option String
  pub timestamp : ℕ

pub record SagaDb : Type 0 where
  pub instances : List SagaInstance
  pub step_logs : List SagaStepLog
