-- ===== src/Platform/Calls.antt =====
-- The platform: what each call of the orchestrator comes to on the handlers behind it.
use delivery_time_prediction.Prelude.{
  String, ◌≡◌, refl, false, Option, none, some, find?, List, any, arith, Option-cases, inl, inr,
}
use delivery_time_prediction.Prelude.Float.{Float}
use delivery_time_prediction.Core.Result.{ok}
use delivery_time_prediction.Core.Idempotency
use delivery_time_prediction.Core.Idempotency.{get-set}
use delivery_time_prediction.Payment.{
  AuthorizePaymentRequest, RefundPaymentRequest, PaymentService, should_fail, authorized_payment,
  authorize_response, refund_of, refund_response, refund_payment, has_payment_id,
}
use delivery_time_prediction.Payment
use delivery_time_prediction.Payment.Authorize.{authorize_payment-fresh, after_authorize}
use delivery_time_prediction.Inventory.{
  ReserveStockRequest, InventoryDb, reserve_block, reserve_response,
}
use delivery_time_prediction.Inventory.Reserve.{answered, reserve_stock-ok}
use delivery_time_prediction.Payment.Refund.{refund_payment-found}
use delivery_time_prediction.Saga.Confirmed.{eta_answer}
use delivery_time_prediction.Saga.Services.{StatusUpdate}
use delivery_time_prediction.Saga.Adapters.{authorize, refund, reserve, accept, accept_validated}
use delivery_time_prediction.Saga.Compensate.{update_order}
use delivery_time_prediction.Platform.{
  World, RunDraw, Environment, payment_json, reserve_json, client, platform,
}

abbrev pub authorize_request : String → Float → String → AuthorizePaymentRequest
authorize_request order_id amount key = record {
  order_id = order_id;
  amount = amount;
  idempotency_key = key;
}

abbrev pub refund_request : String → String → String → RefundPaymentRequest
refund_request order_id payment_id key = record {
  order_id = order_id;
  payment_id = payment_id;
  idempotency_key = key;
}

abbrev pub reserve_request : String → List String → String → ReserveStockRequest
reserve_request order_id items key = record {
  order_id = order_id;
  items = items;
  idempotency_key = key;
}

module _ {X D : Type 0} (env : Environment X D) (draw : RunDraw) where
  -- The calls beside the two services leave them alone.
  pub update_order-keeps :
      (u : StatusUpdate) (w : World X)
      → ((update_order (platform env draw) u w).payments ≡ w.payments)
        × ((update_order (platform env draw) u w).inventory ≡ w.inventory)
  unfolding update_order
  update_order-keeps u w = elim (Option-cases env.order) [
    | inl e ↦ rw (update_order, e) (refl, refl)
    | inr (f, e) ↦ rw (update_order, e) (refl, refl)
  ]

  pub eta_answer-keeps :
      (d : Option D) (w : World X)
      → ((eta_answer (platform env draw) d w).1.payments ≡ w.payments)
        × ((eta_answer (platform env draw) d w).1.inventory ≡ w.inventory)
  eta_answer-keeps d w = ground arith

  module _ (order_id key : String) (w : World X) where
    pub authorize-fresh :
        (amount : Float)
        → let request = authorize_request order_id amount key in
          let fails = should_fail w.payments amount draw.draw in
          Idempotency.get w.payments.idem_store key ≡ none
          → any
              (Payment.clashes (authorized_payment request draw.payment_id fails draw.now))
              w.payments.payments
            ≡ false
          → authorize env.str_nat (client draw) order_id amount key w ≡ (
            ok (payment_json (authorize_response request draw.payment_id fails)),
            record w {
              payments = after_authorize request draw.payment_id draw.draw draw.now w.payments;
            },
          )
    unfolding authorize accept_validated
    authorize-fresh amount h c =
        rw
          (
            authorize,
            authorize_payment-fresh (authorize_request order_id amount key) draw.payment_id
                draw.draw draw.now w.payments h c,
          )
          refl

    pub refund-found :
        (payment_id : String) (original : Payment.Payment)
        → let request = refund_request order_id payment_id key in
          Idempotency.get w.payments.idem_store key ≡ none
          → find? (has_payment_id payment_id) w.payments.payments ≡ some original
          → any
              (Payment.clashes (refund_of request draw.refund_id draw.now original))
              w.payments.payments
            ≡ false
          → refund env.str_nat (client draw) order_id payment_id key w ≡ (
            ok (payment_json (refund_response request draw.refund_id original)),
            record w { payments = (refund_payment request draw.refund_id draw.now w.payments).1 },
          )
    unfolding refund accept
    refund-found payment_id original h f c =
        rw
          (
            refund,
            refund_payment-found (refund_request order_id payment_id key) draw.refund_id draw.now
                original w.payments h f c,
          )
          refl

    pub reserve-answered :
        (items : List String) (missing : Option String) (db' : InventoryDb)
        → let request = reserve_request order_id items key in
          Idempotency.get w.inventory.idem_store key ≡ none
          → reserve_block request draw.reservation_id draw.now w.inventory.db ≡ (ok missing, db')
          → reserve env.str_nat (client draw) order_id items key w ≡ (
            ok (reserve_json (reserve_response request draw.reservation_id missing)),
            record w {
              inventory = answered request draw.reservation_id draw.now missing db' w.inventory;
            },
          )
    unfolding reserve accept_validated
    reserve-answered items missing db' h e =
        rw
          (
            reserve,
            reserve_stock-ok (reserve_request order_id items key) draw.reservation_id draw.now
                w.inventory missing db' h e,
          )
          refl
