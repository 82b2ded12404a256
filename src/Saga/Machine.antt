-- ===== src/Saga/Machine.antt =====
-- services/orchestrator/saga_state_machine.py: `SagaOrchestrator.start_saga`.
use delivery_time_prediction.Prelude.{ℕ, String, Option, none, some, List, [], ◌∷◌, if◌then◌else◌}
use delivery_time_prediction.Prelude.Float.{Float}
use delivery_time_prediction.Core.Result.{Result, ok, err}
use delivery_time_prediction.Core.Idempotency.{generate_idempotency_key}
use delivery_time_prediction.Saga.State.{
  created, payment_pending, payment_ok, payment_failed, inventory_pending, inventory_ok,
  inventory_failed, cancelled, forward, SagaInstance, SagaDb,
}
use delivery_time_prediction.Saga.Services.{
  get, get_or, item, PaymentResult, ReserveResult, Services,
}
use delivery_time_prediction.Saga.Session.{
  SagaSession, first_commit, commit, transition, Outcome, set_saga, close_with, is_text, returned,
  raised,
}
use delivery_time_prediction.Saga.Compensate.{compensate_saga}
use delivery_time_prediction.Saga.Confirm.{eta_step}

abbrev pub new_saga : String → String → ℕ → SagaInstance
new_saga saga_id order_id now = record {
  saga_id = saga_id;
  order_id = order_id;
  correlation_id = order_id;
  current_state = created;
  payment_id = none;
  reservation_id = none;
  refund_id = none;
  eta_minutes = none;
  eta_lower = none;
  eta_upper = none;
  degraded = 0;
  started_at = now;
  updated_at = now;
  completed_at = none;
  error_reason = none;
}

-- `digest` is hashlib.sha256(...).hexdigest()[:32].
module _ {W D : Type 0} (svc : Services W D) (digest : String → String) where
  open svc use {clock, str, authorize, reserve}

  -- `inv_result["reservation_id"]` has been read.
  unfoldable pub after_reserved : Result (Option String) → Option D → SagaSession → W → Outcome W
  after_reserved (err e) order_data ses w = raised e ses w
  after_reserved (ok reservation_id) order_data ses w =
      eta_step svc order_data
        (commit (
          transition (clock w) inventory_ok "inventory_reserved" forward reservation_id
            (set_saga (record ses.saga { reservation_id = reservation_id }) ses)))
        w

  -- What follows the answer of the inventory service.
  unfoldable pub after_reserve : Result ReserveResult → Option D → SagaSession → W → Outcome W
  after_reserve (err e) order_data ses w =
      compensate_saga svc digest (some (str e))
        (commit
          (transition (clock w) inventory_failed "inventory_error" forward (some (str e)) ses))
        w
  after_reserve (ok inv_result) order_data ses w =
      if is_text "RESERVED" (get inv_result.status)
      then after_reserved (item "reservation_id" inv_result.reservation_id) order_data ses w
      else compensate_saga svc digest (get_or inv_result.message "Out of stock")
          (commit (
            transition (clock w) inventory_failed "inventory_out_of_stock" forward
              (get inv_result.message) ses))
          w

  -- Step 2.
  unfoldable pub inventory_step : List String → Option D → SagaSession → W → Outcome W
  inventory_step items order_data ses w =
      let asked =
        commit
          (transition (clock w) inventory_pending "inventory_reserve_start" forward none ses) in
      let (r, w') =
        reserve ses.saga.order_id items
          (generate_idempotency_key digest (ses.saga.saga_id ∷ "inventory" ∷ "reserve" ∷ [])) w in
      after_reserve r order_data asked w'

  -- PAYMENT_FAILED, then CANCELLED, in one commit; the order service is not told.
  unfoldable pub fail_payment :
      String → Option String → String → Option String → SagaSession → W → Outcome W
  fail_payment failed_step detail cancelled_step reason ses w =
      returned
        (commit (
          close_with reason (clock w) (
            transition (clock w) cancelled cancelled_step forward none
              (transition (clock w) payment_failed failed_step forward detail ses))))
        w

  -- `pay_result["payment_id"]` has been read.
  unfoldable pub after_paid :
      Result (Option String) → List String → Option D → SagaSession → W → Outcome W
  after_paid (err e) items order_data ses w = raised e ses w
  after_paid (ok payment_id) items order_data ses w =
      inventory_step items order_data
        (commit (
          transition (clock w) payment_ok "payment_authorized" forward payment_id
            (set_saga (record ses.saga { payment_id = payment_id }) ses)))
        w

  -- What follows the answer of the payment service.
  unfoldable pub after_authorize :
      Result PaymentResult → List String → Option D → SagaSession → W → Outcome W
  after_authorize (err e) items order_data ses w =
      fail_payment "payment_error" (some (str e)) "cancelled_payment_error" (some (str e)) ses w
  after_authorize (ok pay_result) items order_data ses w =
      if is_text "AUTHORIZED" (get pay_result.status)
      then after_paid (item "payment_id" pay_result.payment_id) items order_data ses w
      else fail_payment "payment_declined" (get pay_result.message) "cancelled_payment_declined"
          (get_or pay_result.message "Payment declined") ses w

  -- Step 1, once the saga's row is committed.
  unfoldable pub after_begin :
      Result SagaSession → List String → Float → Option D → SagaDb → W → Outcome W
  after_begin (err e) items total_amount order_data db w = (err e, db, w)
  after_begin (ok ses) items total_amount order_data db w =
      let (r, w') =
        authorize ses.saga.order_id total_amount
          (generate_idempotency_key digest (ses.saga.saga_id ∷ "payment" ∷ "authorize" ∷ [])) w in
      after_authorize r items order_data ses w'

  -- The session of a saga that has just begun.
  abbrev pub begin : String → String → SagaDb → W → SagaSession
  begin saga_id order_id db w =
      transition (clock w) payment_pending "saga_started" forward none
        (record { db = db; saga = new_saga saga_id order_id (clock w); added = [] })

  -- `start_saga`; `saga_id` is the identifier made by uuid4.
  unfoldable pub start_saga :
      String → String → List String → Float → Option D → SagaDb → W → Outcome W
  start_saga saga_id order_id items total_amount order_data db w =
      after_begin (first_commit (begin saga_id order_id db w)) items total_amount order_data db w
