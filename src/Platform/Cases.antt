-- ===== src/Platform/Cases.antt =====
-- The platform: the three ways in which a run of the saga goes.
use delivery_time_prediction.Prelude.{
  String, ◌≡◌, ◌≢◌, refl, sym, ap, ◌∙◌, Bool, true, false, ◌||◌, ◌==◌, Option, none, some, find?,
  List, [], ◌∷◌, ◌++◌, any, count, arith, Bool-cases, inl, inr, eq_of_ne, eq_refl,
}
use delivery_time_prediction.Prelude.Int.{pos, negsuc, ◌+ℤ◌, int_laws}
use delivery_time_prediction.Prelude.Float.{Float}
use delivery_time_prediction.Core.Result.{ok, err}
use delivery_time_prediction.Core.Idempotency
use delivery_time_prediction.Core.Idempotency.{get-set}
use delivery_time_prediction.Payment
use delivery_time_prediction.Payment.{
  should_fail, authorized_payment, authorize_response, refund_of, refund_response, refund_payment,
  has_payment_id,
}
use delivery_time_prediction.Payment.Ledger.{net}
use delivery_time_prediction.Payment.Authorize.{
  authorize_payment-fresh, after_authorize, net-after_authorize,
}
use delivery_time_prediction.Payment.Refund.{refund_payment-authorize_payment}
use delivery_time_prediction.Inventory
use delivery_time_prediction.Inventory.{first_out_of_stock, reserve_response, get_item_stock}
use delivery_time_prediction.Inventory.Stock.{
  times, get_item_stock-add_stocks, first_out_of_stock-none,
}
use delivery_time_prediction.Inventory.Reserve.{
  taken_db, answered, reserve_block-taken, reserve_block-ran_out,
}
use delivery_time_prediction.Saga.State.{
  SagaDb, SagaState, cancelled, confirmed, confirmed_degraded,
}
use delivery_time_prediction.Saga.Session.{Outcome, SagaResult}
use delivery_time_prediction.Saga.Session
use delivery_time_prediction.Saga.Machine.{new_saga, start_saga}
use delivery_time_prediction.Saga.Money.{
  payment_key, inventory_key, refund_key, state_of, world, start_saga-declined, start_saga-refunded,
  cancelled_update,
}
use delivery_time_prediction.Saga.Confirmed.{
  eta_answer, ConfirmedBy, confirmed_update, is_good, start_saga-confirmed,
}
use delivery_time_prediction.Platform.{
  World, RunDraw, Environment, payment_json, reserve_json, platform,
}
use delivery_time_prediction.Platform.Attempt.{
  money, stock, Attempt, bought, bought_degraded, nothing,
}
use delivery_time_prediction.Platform.Calls.{
  authorize_request, refund_request, reserve_request, update_order-keeps, eta_answer-keeps,
  authorize-fresh, refund-found, reserve-answered,
}

-- A run that reports a state, and is an attempt that may report it.
abbrev pub Refines : {X : Type 0} → Float → List String → World X → Outcome (World X) → Type 0
Refines amount items w out =
    (s : SagaState) × (state_of out ≡ some s) × Attempt amount items w (world out) s

state_of-returns :
    {W : Type 0} (out : Outcome W) (res : SagaResult)
    → out.0 ≡ ok res
    → state_of out ≡ some res.state
state_of-returns (ok x, db, w) res h = ap some (ap SagaResult.state (same h))
  where
    same : {A : Type 0} {a b : A} → ok a ≡ ok b → a ≡ b
    same e = cc
state_of-returns (err x, db, w) res h = cc

find-new :
    (p : Payment.Payment) (rows : List Payment.Payment)
    → any (Payment.clashes p) rows ≡ false
    → find? (has_payment_id p.payment_id) (rows ++ p ∷ []) ≡ some p
find-new p [] h = rw (eq_refl p.payment_id) refl
find-new p (x ∷ rows) h = ground (arith, find-new p rows)

any-snoc :
    (f : Payment.Payment → Bool) (rows : List Payment.Payment) (p : Payment.Payment)
    → any f rows ≡ false
    → f p ≡ false
    → any f (rows ++ p ∷ []) ≡ false
any-snoc f [] p h k = rw k refl
any-snoc f (x ∷ rows) p h k = ground (arith, any-snoc f rows p)

module _ {X D : Type 0} (env : Environment X D) (draw : RunDraw) (digest : String → String)
    (saga_id order_id : String) (items : List String) (amount : Float) (order_data : Option D)
    (db : SagaDb) (w : World X)
    (fresh : any (Session.clashes (new_saga saga_id order_id (env.clock w.rest))) db.instances
      ≡ false)
    (uncached : Idempotency.get w.payments.idem_store (payment_key digest saga_id) ≡ none)
    (no_clash : any
        (λ p. p.payment_id == draw.payment_id || p.idempotency_key == payment_key digest saga_id)
        w.payments.payments
      ≡ false) where
  abbrev run : Outcome (World X)
  run = start_saga (platform env draw) digest saga_id order_id items amount order_data db w

  abbrev charged : Payment.AuthorizePaymentRequest
  charged = authorize_request order_id amount (payment_key digest saga_id)

  abbrev paid : World X
  paid = record w {
    payments = after_authorize charged draw.payment_id draw.draw draw.now w.payments;
  }

  pub declined-Refines : should_fail w.payments amount draw.draw ≡ true → Refines amount items w run
  declined-Refines fails =
      let (s, e) =
        start_saga-declined (platform env draw) digest saga_id order_id items amount order_data db w
          fresh _ paid
          (authorize-fresh env draw order_id (payment_key digest saga_id) w amount uncached
            no_clash)
          (rw fails refl) in
      let held = net-after_authorize charged draw.payment_id draw.draw draw.now w.payments in
      let same : net paid.payments.payments ≡ net w.payments.payments +ℤ pos 0 =
        held ∙ rw fails refl in
      (cancelled, s, nothing (ap money e ∙ same ∙ omega int_laws) (λ j. ap (stock j) e))

  -- What the payment service holds after the authorization, for the refund.
  abbrev original : Payment.Payment
  original = authorized_payment charged draw.payment_id false draw.now

  module _ (passes : should_fail w.payments amount draw.draw ≡ false)
      (keys : payment_key digest saga_id ≢ refund_key digest saga_id)
      (refund_uncached : Idempotency.get w.payments.idem_store (refund_key digest saga_id) ≡ none)
      (refund_no_clash : any
          (λ p. p.payment_id == draw.refund_id || p.idempotency_key == refund_key digest saga_id)
          w.payments.payments
        ≡ false)
      (ids : draw.payment_id ≢ draw.refund_id) where
    still_uncached : Idempotency.get paid.payments.idem_store (refund_key digest saga_id) ≡ none
    still_uncached = rw (get-set, eq_of_ne _ _ keys) refund_uncached

    found_paid : find? (has_payment_id draw.payment_id) paid.payments.payments ≡ some original
    found_paid = rw passes (find-new original w.payments.payments no_clash)

    abbrev refunding : Payment.RefundPaymentRequest
    refunding = refund_request order_id draw.payment_id (refund_key digest saga_id)

    still_no_clash :
        any
          (Payment.clashes (refund_of refunding draw.refund_id draw.now original))
          paid.payments.payments
        ≡ false
    still_no_clash =
        any-snoc _ w.payments.payments _ refund_no_clash
          (rw (eq_of_ne _ _ ids, eq_of_ne _ _ keys) refl)

    -- The refund brings the money back to what it was.
    refunded_money :
        net (refund_payment refunding draw.refund_id draw.now paid.payments).1.payments
        ≡ net w.payments.payments
    refunded_money =
        let once =
          authorize_payment-fresh charged draw.payment_id draw.draw draw.now w.payments uncached
            no_clash in
        ap (λ r. net (refund_payment refunding draw.refund_id draw.now r.1).1.payments) (sym once)
        ∙ refund_payment-authorize_payment charged refunding draw.payment_id draw.refund_id
            draw.draw draw.now draw.now w.payments uncached passes no_clash refl
            (rw once still_uncached) (rw once still_no_clash)

    module _ (named : draw.payment_id ≢ "")
        (inventory_uncached : Idempotency.get w.inventory.idem_store (inventory_key digest saga_id)
          ≡ none) where
      abbrev reserving : Inventory.ReserveStockRequest
      reserving = reserve_request order_id items (inventory_key digest saga_id)

      abbrev reserved_world : Option String → Inventory.InventoryDb → World X
      reserved_world missing db' = record paid {
        inventory = answered reserving draw.reservation_id draw.now missing db' w.inventory;
      }

      abbrev refunded_with : Option String → Inventory.InventoryDb → World X
      refunded_with missing db' = record (reserved_world missing db') {
        payments = (refund_payment refunding draw.refund_id draw.now paid.payments).1;
      }

      pub ran_out-Refines :
          (i : String)
          → first_out_of_stock w.inventory.db.inventory_items items ≡ some i
          → Refines amount items w run
      ran_out-Refines i out =
          let idb = w.inventory.db in
          let svc = platform env draw in
          let (s, e) =
            start_saga-refunded svc digest saga_id order_id items amount order_data db w fresh
              (payment_json (
                authorize_response charged draw.payment_id
                  (should_fail w.payments amount draw.draw)))
              draw.payment_id paid
              (authorize-fresh env draw order_id (payment_key digest saga_id) w amount uncached
                no_clash)
              (rw passes refl) refl named
              (ok (reserve_json (reserve_response reserving draw.reservation_id (some i))))
              (reserved_world (some i) idb)
              (reserve-answered env draw order_id (inventory_key digest saga_id) paid items (some i)
                idb inventory_uncached
                (reserve_block-ran_out reserving draw.reservation_id draw.now idb i out))
              refl (ok (payment_json (refund_response refunding draw.refund_id original)))
              (refunded_with (some i) idb)
              (refund-found env draw order_id (refund_key digest saga_id)
                (reserved_world (some i) idb) draw.payment_id original still_uncached found_paid
                still_no_clash) in
          let (payments, inventory) =
            update_order-keeps env draw (cancelled_update order_id) (refunded_with (some i) idb) in
          (
            cancelled,
            s,
            nothing (ap money e ∙ ap (λ p. net p.payments) payments ∙ refunded_money)
                (λ j. ap (stock j) e ∙ ap (λ v. get_item_stock j v.db.inventory_items) inventory),
          )

      module _
          (reservation_no_clash : any
              (λ r.
                r.reservation_id == draw.reservation_id
                || r.idempotency_key == inventory_key digest saga_id)
              w.inventory.db.reservations
            ≡ false) where
        abbrev taken : Inventory.InventoryDb
        taken = taken_db reserving draw.reservation_id draw.now w.inventory.db

        abbrev asked : World X
        asked = (eta_answer (platform env draw) order_data (reserved_world none taken)).1

        reserved_run :
            first_out_of_stock w.inventory.db.inventory_items items ≡ none
            → ConfirmedBy
                (platform env draw)
                draw.payment_id
                (some draw.reservation_id)
                (eta_answer (platform env draw) order_data (reserved_world none taken)).0
                asked
                run
        reserved_run none_ =
            start_saga-confirmed (platform env draw) digest saga_id order_id items amount order_data
              db w fresh
              (payment_json (
                authorize_response charged draw.payment_id
                  (should_fail w.payments amount draw.draw)))
              draw.payment_id paid
              (authorize-fresh env draw order_id (payment_key digest saga_id) w amount uncached
                no_clash)
              (rw passes refl) refl
              (reserve_json (reserve_response reserving draw.reservation_id none))
              (some draw.reservation_id) (reserved_world none taken)
              (reserve-answered env draw order_id (inventory_key digest saga_id) paid items none
                taken inventory_uncached
                (reserve_block-taken reserving draw.reservation_id draw.now w.inventory.db none_
                  reservation_no_clash))
              refl refl

        pub reserved-Refines :
            first_out_of_stock w.inventory.db.inventory_items items ≡ none
            → Refines amount items w run
        reserved-Refines none_ =
            let c = reserved_run none_ in
            let answer =
              (eta_answer (platform env draw) order_data (reserved_world none taken)).0 in
            let (p1, i1) = update_order-keeps env draw (confirmed_update c.result) asked in
            let (p2, i2) = eta_answer-keeps env draw order_data (reserved_world none taken) in
            let held : net paid.payments.payments ≡ net w.payments.payments +ℤ amount =
              net-after_authorize charged draw.payment_id draw.draw draw.now w.payments
              ∙ rw passes refl in
            let listed = (first_out_of_stock-none w.inventory.db.inventory_items items none_).0 in
            let money_up : money (world run) ≡ money w +ℤ amount =
              ap money c.told ∙ ap (λ p. net p.payments) (p1 ∙ p2) ∙ held in
            let stock_down : (j : String)
                → stock j (world run) ≡ stock j w +ℤ times (count j items) (negsuc 0) =
              λ j.
                ap (stock j) c.told
                ∙ ap (λ v. get_item_stock j v.db.inventory_items) (i1 ∙ i2)
                ∙ get_item_stock-add_stocks j (negsuc 0) items w.inventory.db.inventory_items
                    listed in
            let reported = state_of-returns run c.result c.returns ∙ ap some c.state in
            elim (Bool-cases (is_good answer)) [
              | inl e ↦ (confirmed, reported ∙ rw e refl, bought money_up stock_down)
              | inr e ↦
                  (confirmed_degraded, reported ∙ rw e refl, bought_degraded money_up stock_down)
            ]
