-- ===== src/Platform/Refines.antt =====
-- The platform: one run of the saga is an attempt that buys everything or does nothing.
use delivery_time_prediction.Prelude.{
  String, ◌≡◌, ◌≢◌, false, ◌||◌, ◌==◌, Option, none, List, any, Bool-cases, Option-cases, inl, inr,
}
use delivery_time_prediction.Prelude.Float.{Float}
use delivery_time_prediction.Core.Idempotency
use delivery_time_prediction.Core.Idempotency.{get-set}
use delivery_time_prediction.Payment.{should_fail}
use delivery_time_prediction.Inventory.{first_out_of_stock}
use delivery_time_prediction.Saga.State.{SagaDb}
use delivery_time_prediction.Saga.Session.{Outcome, SagaResult}
use delivery_time_prediction.Saga.Session
use delivery_time_prediction.Saga.Machine.{new_saga, start_saga}
use delivery_time_prediction.Saga.Money.{payment_key, inventory_key, refund_key}
use delivery_time_prediction.Platform.{World, RunDraw, Environment, platform}
use delivery_time_prediction.Platform.Cases.{
  Refines, declined-Refines, ran_out-Refines, reserved-Refines,
}

-- One run of the saga, on services whose identifiers and keys for it are unused, is an attempt as the
-- customer sees it: it reports CONFIRMED or CONFIRMED_DEGRADED, and the money held has grown by the
-- amount and the stock of each item shrunk by its occurrences in the order; or it reports CANCELLED,
-- and neither the money nor the stock has changed.
pub start_saga-Refines :
    {X D : Type 0} (env : Environment X D) (draw : RunDraw) (digest : String → String)
    (saga_id order_id : String) (items : List String) (amount : Float) (order_data : Option D)
    (db : SagaDb) (w : World X)
    → any (Session.clashes (new_saga saga_id order_id (env.clock w.rest))) db.instances ≡ false
    → Idempotency.get w.payments.idem_store (payment_key digest saga_id) ≡ none
    → any
        (λ p. p.payment_id == draw.payment_id || p.idempotency_key == payment_key digest saga_id)
        w.payments.payments
      ≡ false
    → payment_key digest saga_id ≢ refund_key digest saga_id
    → Idempotency.get w.payments.idem_store (refund_key digest saga_id) ≡ none
    → any
        (λ p. p.payment_id == draw.refund_id || p.idempotency_key == refund_key digest saga_id)
        w.payments.payments
      ≡ false
    → draw.payment_id ≢ draw.refund_id
    → draw.payment_id ≢ ""
    → Idempotency.get w.inventory.idem_store (inventory_key digest saga_id) ≡ none
    → any
        (λ r.
          r.reservation_id == draw.reservation_id
          || r.idempotency_key == inventory_key digest saga_id)
        w.inventory.db.reservations
      ≡ false
    → Refines amount items w
        (start_saga (platform env draw) digest saga_id order_id items amount order_data db w)
start_saga-Refines env draw digest saga_id order_id items amount order_data db w fresh uncached
      no_clash keys refund_uncached refund_no_clash ids named inventory_uncached
      reservation_no_clash =
    elim (Bool-cases (should_fail w.payments amount draw.draw)) [
      | inl fails ↦
          declined-Refines env draw digest saga_id order_id items amount order_data db w fresh
            uncached no_clash fails
      | inr passes ↦ elim (Option-cases (first_out_of_stock w.inventory.db.inventory_items items)) [
        | inl none_ ↦
            reserved-Refines env draw digest saga_id order_id items amount order_data db w fresh
              uncached no_clash passes keys refund_uncached refund_no_clash ids named
              inventory_uncached reservation_no_clash none_
        | inr (i, out) ↦
            ran_out-Refines env draw digest saga_id order_id items amount order_data db w fresh
              uncached no_clash passes keys refund_uncached refund_no_clash ids named
              inventory_uncached i out
      ]
    ]
