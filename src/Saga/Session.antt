-- ===== src/Saga/Session.antt =====
-- services/orchestrator/saga_state_machine.py: the session of one saga, its transitions and commits.
use delivery_time_prediction.Prelude.{
  ℕ, String, Bool, false, not, ◌||◌, Option, none, some, List, [], ◌∷◌, ◌++◌, ◌==◌, find?, select,
  any, modify_first, if◌then◌else◌, nat_eq,
}
use delivery_time_prediction.Prelude.Float.{Float}
use delivery_time_prediction.Core.Result.{Exception, Result, ok, err, integrity_error}
use delivery_time_prediction.Saga.State.{SagaState, StepType, SagaInstance, SagaStepLog, SagaDb}

-- The SQLAlchemy session of one saga: what is committed, its row as the session holds it, and the
-- log entries that were added since the last commit.
pub record SagaSession : Type 0 where
  pub db : SagaDb
  pub saga : SagaInstance
  pub added : List SagaStepLog

abbrev pub has_saga_id : String → SagaInstance → Bool
has_saga_id i saga = saga.saga_id == i

abbrev pub has_order_id : String → SagaInstance → Bool
has_order_id i saga = saga.order_id == i

-- The UNIQUE columns of `saga_instances`.
abbrev pub clashes : SagaInstance → SagaInstance → Bool
clashes new old = old.saga_id == new.saga_id || old.order_id == new.order_id

-- The session once its new row is inserted.
abbrev pub inserted : SagaSession → SagaSession
inserted ses = record {
  db = record {
    instances = ses.db.instances ++ ses.saga ∷ [];
    step_logs = ses.db.step_logs ++ ses.added;
  };
  saga = ses.saga;
  added = [];
}

-- The first commit inserts the row, and is refused if a unique column clashes.
unfoldable pub first_commit : SagaSession → Result SagaSession
first_commit ses =
    if any (clashes ses.saga) ses.db.instances then err integrity_error else ok (inserted ses)

-- A later commit writes the row and the new log entries.
unfoldable pub commit : SagaSession → SagaSession
commit ses = record {
  db = record {
    instances = modify_first (has_saga_id ses.saga.saga_id) (λ _. ses.saga) ses.db.instances;
    step_logs = ses.db.step_logs ++ ses.added;
  };
  saga = ses.saga;
  added = [];
}

-- `_transition` and `_log_step`.
unfoldable pub transition :
    ℕ → SagaState → String → StepType → Option String → SagaSession → SagaSession
transition now new_state step_name step_type detail ses = record ses {
  saga = record ses.saga { current_state = new_state; updated_at = now };
  added =
      ses.added
      ++ record {
        saga_id = ses.saga.saga_id;
        step_name = step_name;
        from_state = ses.saga.current_state;
        to_state = new_state;
        step_type = step_type;
        detail = detail;
        timestamp = now;
      }
        ∷ [];
}

-- `_saga_result`
pub record SagaResult : Type 0 where
  pub saga_id : String
  pub order_id : String
  pub state : SagaState
  pub payment_id : Option String
  pub reservation_id : Option String
  pub refund_id : Option String
  pub eta_minutes : Option Float
  pub eta_lower : Option Float
  pub eta_upper : Option Float
  pub degraded : Bool
  pub error_reason : Option String

unfoldable pub saga_result : SagaInstance → SagaResult
saga_result saga = record {
  saga_id = saga.saga_id;
  order_id = saga.order_id;
  state = saga.current_state;
  payment_id = saga.payment_id;
  reservation_id = saga.reservation_id;
  refund_id = saga.refund_id;
  eta_minutes = saga.eta_minutes;
  eta_lower = saga.eta_lower;
  eta_upper = saga.eta_upper;
  degraded = not (nat_eq saga.degraded 0);
  error_reason = saga.error_reason;
}

-- How a run ends: its result, the committed rows, and the world.
abbrev pub Outcome : Type 0 → Type 0
Outcome W = Result SagaResult × SagaDb × W

abbrev pub set_saga : SagaInstance → SagaSession → SagaSession
set_saga saga ses = record ses { saga = saga }

-- `saga.error_reason = reason; saga.completed_at = datetime.now(UTC)`
abbrev pub close_with : Option String → ℕ → SagaSession → SagaSession
close_with reason now ses =
    set_saga (record ses.saga { error_reason = reason; completed_at = some now }) ses

-- `x == "..."` where `x` may be None.
abbrev pub is_text : String → Option String → Bool
is_text t none = false
is_text t (some s) = s == t

-- `if x:` on a text that may be None.
abbrev pub text_truthy : Option String → Bool
text_truthy none = false
text_truthy (some s) = not (s == "")

abbrev pub or_empty : Option String → String
or_empty none = ""
or_empty (some s) = s

module _ {W : Type 0} where
  -- `return self._saga_result(saga)`
  abbrev pub returned : SagaSession → W → Outcome W
  returned ses w = (ok (saga_result ses.saga), ses.db, w)

  -- The outermost handler: roll back, and raise again.
  abbrev pub raised : Exception → SagaSession → W → Outcome W
  raised e ses w = (err e, ses.db, w)

-- `get_saga_status`
pub get_saga_status : String → SagaDb → Option SagaResult
get_saga_status order_id db = elim (find? (has_order_id order_id) db.instances) [
  | none ↦ none
  | some saga ↦ some (saga_result saga)
]

abbrev logged_for : String → SagaStepLog → Bool
logged_for i log = log.saga_id == i

-- `get_saga_steps`, as the rows that it lists.
get_saga_steps : String → SagaDb → List SagaStepLog
get_saga_steps saga_id db = select (logged_for saga_id) db.step_logs
