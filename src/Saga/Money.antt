-- ===== src/Saga/Money.antt =====
-- services/orchestrator/saga_state_machine.py: what `start_saga` asks of the services when the
-- payment is refused, and when the stock is.
use delivery_time_prediction.Prelude.{
  String, ◌≡◌, ◌≢◌, refl, Bool, false, Option, none, some, List, [], ◌∷◌, any, eq_of_ne,
}
use delivery_time_prediction.Prelude.Float.{Float}
use delivery_time_prediction.Core.Result.{Result, ok, err}
use delivery_time_prediction.Core.Idempotency.{generate_idempotency_key}
use delivery_time_prediction.Saga.State.{SagaState, cancelled, manual_review, value, SagaDb}
use delivery_time_prediction.Saga.Services.{
  val, get, PaymentResult, ReserveResult, StatusUpdate, Services,
}
use delivery_time_prediction.Saga.Session.{
  SagaSession, clashes, inserted, first_commit, commit, transition, saga_result, Outcome, is_text,
}
use delivery_time_prediction.Saga.Compensate.{
  update_order, cancel_saga, after_refund, compensate_saga,
}
use delivery_time_prediction.Saga.Machine.{
  new_saga, after_reserve, inventory_step, fail_payment, after_paid, after_authorize, after_begin,
  begin, start_saga,
}

-- The state that a run reports, if it returns.
abbrev pub state_of : {W : Type 0} → Outcome W → Option SagaState
state_of (ok res, db, w) = some res.state
state_of (err e, db, w) = none

-- The world in which a run ends: what the services have been asked to do.
abbrev pub world : {W : Type 0} → Outcome W → W
world (r, db, w) = w

abbrev pub is_authorized : Result PaymentResult → Bool
is_authorized (ok res) = is_text "AUTHORIZED" (get res.status)
is_authorized (err e) = false

abbrev pub is_reserved : Result ReserveResult → Bool
is_reserved (ok res) = is_text "RESERVED" (get res.status)
is_reserved (err e) = false

-- The update of the order service behind a refund.
abbrev pub cancelled_update : String → StatusUpdate
cancelled_update order_id = record { order_id = order_id; new_status = "CANCELLED"; eta = none }

module _ (digest : String → String) (saga_id : String) where
  abbrev pub payment_key : String
  payment_key = generate_idempotency_key digest (saga_id ∷ "payment" ∷ "authorize" ∷ [])

  abbrev pub inventory_key : String
  inventory_key = generate_idempotency_key digest (saga_id ∷ "inventory" ∷ "reserve" ∷ [])

  abbrev pub refund_key : String
  refund_key = generate_idempotency_key digest (saga_id ∷ "payment" ∷ "refund" ∷ [])

-- Where a run ends that asked for a refund, by the answer.
abbrev pub refunded_state : Result PaymentResult → SagaState
refunded_state (ok res) = cancelled
refunded_state (err e) = manual_review

abbrev pub refunded_world : {W D : Type 0} → Services W D → String → Result PaymentResult → W → W
refunded_world svc order_id (ok res) w = update_order svc (cancelled_update order_id) w
refunded_world svc order_id (err e) w = w

module _ {W D : Type 0} (svc : Services W D) (digest : String → String) where
  after_authorize-declined :
      (r : Result PaymentResult) (items : List String) (order_data : Option D) (ses : SagaSession)
      (w : W)
      → is_authorized r ≡ false
      → (state_of (after_authorize svc digest r items order_data ses w) ≡ some cancelled)
        × (world (after_authorize svc digest r items order_data ses w) ≡ w)
  unfolding after_authorize fail_payment commit transition saga_result
  after_authorize-declined (err e) items order_data ses w n = (refl, refl)
  after_authorize-declined (ok res) items order_data ses w n = rw n (refl, refl)

  after_refund-cases :
      (r : Result PaymentResult) (reason : Option String) (ses : SagaSession) (w : W)
      → (state_of (after_refund svc digest r reason ses w) ≡ some (refunded_state r))
        × (world (after_refund svc digest r reason ses w)
            ≡ refunded_world svc ses.saga.order_id r w)
  unfolding after_refund cancel_saga commit transition saga_result value
  after_refund-cases (ok res) reason ses w = (refl, refl)
  after_refund-cases (err e) reason ses w = (refl, refl)

  -- A reservation that fails leads to the refund of what was paid.
  after_reserve-unreserved :
      (r : Result ReserveResult) (order_data : Option D) (ses : SagaSession) (w : W) (pid : String)
      → is_reserved r ≡ false
      → ses.saga.payment_id ≡ some pid
      → pid ≢ ""
      → (r' : Result PaymentResult) (w' : W)
      → svc.refund ses.saga.order_id pid (refund_key digest ses.saga.saga_id) w ≡ (r', w')
      → (state_of (after_reserve svc digest r order_data ses w) ≡ some (refunded_state r'))
        × (world (after_reserve svc digest r order_data ses w)
            ≡ refunded_world svc ses.saga.order_id r' w')
  unfolding after_reserve compensate_saga commit transition
  after_reserve-unreserved (err e) order_data ses w pid n p ne r' w' c =
      rw (p, eq_of_ne pid "" ne, c) (after_refund-cases _ _ _ _)
  after_reserve-unreserved (ok res) order_data ses w pid n p ne r' w' c =
      rw (n, p, eq_of_ne pid "" ne, c) (after_refund-cases _ _ _ _)

module _ {W D : Type 0} (svc : Services W D) (digest : String → String)
    (saga_id order_id : String) where
  module _ (items : List String) (total_amount : Float) (order_data : Option D) (db : SagaDb)
      (w : W)
      (fresh : any (clashes (new_saga saga_id order_id (svc.clock w))) db.instances ≡ false) where
    pub start_saga-after_authorize :
        start_saga svc digest saga_id order_id items total_amount order_data db w ≡ (
          let (r, w') = svc.authorize order_id total_amount (payment_key digest saga_id) w in
          after_authorize svc digest r items order_data
            (inserted (begin svc digest saga_id order_id db w))
            w')
    unfolding start_saga first_commit after_begin transition
    start_saga-after_authorize = rw fresh refl

    -- In a run whose row can be inserted: if the payment service raises or does not answer
    -- AUTHORIZED, the run reports CANCELLED, and nothing but that one call has happened: no refund,
    -- no reservation, no update of the order.
    pub start_saga-declined :
        (r : Result PaymentResult) (w1 : W)
        → svc.authorize order_id total_amount (payment_key digest saga_id) w ≡ (r, w1)
        → is_authorized r ≡ false
        → (state_of (start_saga svc digest saga_id order_id items total_amount order_data db w)
            ≡ some cancelled)
          × (world (start_saga svc digest saga_id order_id items total_amount order_data db w) ≡ w1)
    unfolding start_saga first_commit after_begin transition after_authorize fail_payment commit
        saga_result
    start_saga-declined r w1 a n =
        rw (start_saga-after_authorize, a)
          (after_authorize-declined svc digest r items order_data _ w1 n)

    -- In a run whose row can be inserted: if the payment is authorized under a non-empty id and the
    -- reservation is refused or raises, the run asks for a refund of that id. It reports CANCELLED
    -- and tells the order service so if the refund returns an answer, whatever the answer says; it
    -- reports MANUAL_REVIEW, and tells nobody, if the refund raises. Nothing else is called.
    pub start_saga-refunded :
        (res : PaymentResult) (pid : String) (w1 : W)
        → svc.authorize order_id total_amount (payment_key digest saga_id) w ≡ (ok res, w1)
        → res.status ≡ val "AUTHORIZED"
        → res.payment_id ≡ val pid
        → pid ≢ ""
        → (r2 : Result ReserveResult) (w2 : W)
        → svc.reserve order_id items (inventory_key digest saga_id) w1 ≡ (r2, w2)
        → is_reserved r2 ≡ false
        → (r3 : Result PaymentResult) (w3 : W)
        → svc.refund order_id pid (refund_key digest saga_id) w2 ≡ (r3, w3)
        → (state_of (start_saga svc digest saga_id order_id items total_amount order_data db w)
            ≡ some (refunded_state r3))
          × (world (start_saga svc digest saga_id order_id items total_amount order_data db w)
              ≡ refunded_world svc order_id r3 w3)
    unfolding after_authorize after_paid inventory_step commit transition
    start_saga-refunded res pid w1 a st p ne r2 w2 b n r3 w3 c =
        rw (start_saga-after_authorize, a, st, p, b)
          (after_reserve-unreserved svc digest r2 order_data _ w2 pid n refl ne r3 w3 c)
