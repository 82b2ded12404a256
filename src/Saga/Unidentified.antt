-- ===== src/Saga/Unidentified.antt =====
-- services/orchestrator/saga_state_machine.py: what `start_saga` does if the answer of the payment or
-- of the inventory service lacks its identifier.
use delivery_time_prediction.Prelude.{
  String, ◌≡◌, refl, false, Option, none, List, [], ◌∷◌, ◌++◌, any,
}
use delivery_time_prediction.Prelude.Float.{Float}
use delivery_time_prediction.Core.Result.{ok, err, key_error}
use delivery_time_prediction.Saga.State.{SagaInstance, payment_pending, SagaDb}
use delivery_time_prediction.Saga.Services.{absent, val, PaymentResult, ReserveResult, Services}
use delivery_time_prediction.Saga.Session.{clashes, commit, transition}
use delivery_time_prediction.Saga.Machine.{
  new_saga, after_reserved, after_reserve, inventory_step, after_paid, after_authorize, begin,
  start_saga,
}
use delivery_time_prediction.Saga.Money.{
  payment_key, inventory_key, world, start_saga-after_authorize,
}

module _ {W D : Type 0} (svc : Services W D) (digest : String → String)
    (saga_id order_id : String) where
  module _ (items : List String) (total_amount : Float) (order_data : Option D) (db : SagaDb)
      (w : W)
      (fresh : any (clashes (new_saga saga_id order_id (svc.clock w))) db.instances ≡ false) where
    -- In a run whose row can be inserted: if the payment is authorized by an answer without the key
    -- "payment_id", the run raises a KeyError, although the money is held: no other service is
    -- called, so nothing is refunded, and one row is added, which stays in PAYMENT_PENDING without a
    -- payment, an error or an end.
    pub start_saga-unidentified_payment :
        (res : PaymentResult) (w1 : W)
        → svc.authorize order_id total_amount (payment_key digest saga_id) w ≡ (ok res, w1)
        → res.status ≡ val "AUTHORIZED"
        → res.payment_id ≡ absent
        → let (r, db', w') =
            start_saga svc digest saga_id order_id items total_amount order_data db w in
          (r ≡ err (key_error "payment_id"))
          × (w' ≡ w1)
          × (saga : SagaInstance) × (db'.instances ≡ db.instances ++ saga ∷ [])
          × (saga.saga_id ≡ saga_id)
          × (saga.order_id ≡ order_id)
          × (saga.current_state ≡ payment_pending)
          × (saga.payment_id ≡ none)
          × (saga.refund_id ≡ none)
          × (saga.error_reason ≡ none)
          × (saga.completed_at ≡ none)
    unfolding after_authorize after_paid transition
    start_saga-unidentified_payment res w1 a st p =
        rw
          (
            start_saga-after_authorize svc digest saga_id order_id items total_amount order_data db
                w fresh,
            a,
            st,
            p,
          )
          (
            refl,
            refl,
            (begin svc digest saga_id order_id db w).saga,
            refl,
            refl,
            refl,
            refl,
            refl,
            refl,
            refl,
            refl,
          )

    -- In a run whose row can be inserted: if the payment is authorized under an id and the
    -- reservation is answered RESERVED without the key "reservation_id", the run raises a KeyError:
    -- nothing is called behind the reservation, so neither is the payment refunded nor the stock
    -- released.
    pub start_saga-unidentified_reservation :
        (res : PaymentResult) (pid : String) (w1 : W)
        → svc.authorize order_id total_amount (payment_key digest saga_id) w ≡ (ok res, w1)
        → res.status ≡ val "AUTHORIZED"
        → res.payment_id ≡ val pid
        → (inv : ReserveResult) (w2 : W)
        → svc.reserve order_id items (inventory_key digest saga_id) w1 ≡ (ok inv, w2)
        → inv.status ≡ val "RESERVED"
        → inv.reservation_id ≡ absent
        → ((start_saga svc digest saga_id order_id items total_amount order_data db w).0
            ≡ err (key_error "reservation_id"))
          × (world (start_saga svc digest saga_id order_id items total_amount order_data db w) ≡ w2)
    unfolding after_authorize after_paid inventory_step after_reserve after_reserved commit
        transition
    start_saga-unidentified_reservation res pid w1 a st p inv w2 b st' q =
        rw
          (
            start_saga-after_authorize svc digest saga_id order_id items total_amount order_data db
                w fresh,
            a,
            st,
            p,
            b,
            st',
            q,
          )
          (refl, refl)
