-- ===== src/Platform.antt =====
-- The services put together: the orchestrator (services/orchestrator/) with its HTTP adapters, on the
-- handlers of the payment and the inventory service. HTTP itself is FastAPI's and httpx's: a handler
-- that returns is answered with 200 and its model as JSON, an HTTPException with its status and a
-- body that has none of the model's keys, and another exception with 500 and a body that is no JSON.
pub mod Attempt
pub mod Calls
pub mod Cases
pub mod Refines
mod Tests
use delivery_time_prediction.Prelude.{ℕ, String, Option, none, some, List}
use delivery_time_prediction.Prelude.Int.{ℤ}
use delivery_time_prediction.Prelude.Float.{Float}
use delivery_time_prediction.Core.Result.{Exception, Result, ok, err, http, value_error}
use delivery_time_prediction.Payment.{
  PaymentStatus, authorized, declined, refunded, failed, PaymentResponse, PaymentService,
  authorize_payment, refund_payment,
}
use delivery_time_prediction.Inventory.{
  InventoryStatus, reserved, out_of_stock, released, ReservationResponse, InventoryService,
  reserve_stock,
}
use delivery_time_prediction.Saga.Services.{
  Field, absent, null, val, PaymentResult, ReserveResult, EtaResult, StatusUpdate, Services,
}
use delivery_time_prediction.Saga.Adapters
use delivery_time_prediction.Saga.Adapters.{Response, HttpClient}

-- The databases of the two services, and the rest of the world, with the ETA and order services.
pub record World (X : Type 0) : Type 0 where
  pub payments : PaymentService
  pub inventory : InventoryService
  pub rest : X

-- What uuid4, `random` and the clocks of the services give to the calls of one run, which calls each
-- handler once at most.
pub record RunDraw : Type 0 where
  pub payment_id : String
  pub refund_id : String
  pub reservation_id : String
  pub draw : Float
  pub now : ℕ

abbrev pub payment_status_text : PaymentStatus → String
payment_status_text authorized = "AUTHORIZED"
payment_status_text declined = "DECLINED"
payment_status_text refunded = "REFUNDED"
payment_status_text failed = "FAILED"

abbrev pub inventory_status_text : InventoryStatus → String
inventory_status_text reserved = "RESERVED"
inventory_status_text out_of_stock = "OUT_OF_STOCK"
inventory_status_text released = "RELEASED"

abbrev or_null : Option String → Field String
or_null none = null
or_null (some s) = val s

-- The JSON of the answers.
abbrev pub payment_json : PaymentResponse → PaymentResult
payment_json r = record {
  status = val (payment_status_text r.status);
  payment_id = val r.payment_id;
  message = or_null r.message;
}

abbrev pub reserve_json : ReservationResponse → ReserveResult
reserve_json r = record {
  status = val (inventory_status_text r.status);
  reservation_id = val r.reservation_id;
  message = or_null r.message;
}

-- The response to a request that a handler ended in this way; `no_keys` is the body of an error.
abbrev pub responds : {A B : Type 0} → (A → B) → B → Result A → Response B
responds json no_keys (ok a) = record { status_code = 200; text = ""; json = ok (json a) }
responds json no_keys (err (http status_code detail)) = record {
  status_code = status_code;
  text = detail;
  json = ok no_keys;
}
responds json no_keys (err e) = record {
  status_code = 500;
  text = "Internal Server Error";
  json = err value_error;
}

module _ {X : Type 0} (draw : RunDraw) where
  -- The HTTP client of the adapters, on the handlers.
  abbrev pub client : HttpClient (World X)
  client = record {
    post_authorize = λ body w.
        let (r, s) =
          authorize_payment
            (record {
              order_id = body.order_id;
              amount = body.amount;
              idempotency_key = body.idempotency_key;
            })
            draw.payment_id draw.draw draw.now w.payments in
        (
          ok (
              responds payment_json
                (record { status = absent; payment_id = absent; message = absent }) r),
          record w { payments = s },
        );
    post_refund = λ body w.
        let (r, s) =
          refund_payment
            (record {
              order_id = body.order_id;
              payment_id = body.payment_id;
              idempotency_key = body.idempotency_key;
            })
            draw.refund_id draw.now w.payments in
        (
          ok (
              responds payment_json
                (record { status = absent; payment_id = absent; message = absent }) r),
          record w { payments = s },
        );
    post_reserve = λ body w.
        let (r, s) =
          reserve_stock
            (record {
              order_id = body.order_id;
              items = body.items;
              idempotency_key = body.idempotency_key;
            })
            draw.reservation_id draw.now w.inventory in
        (
          ok (
              responds reserve_json
                (record { status = absent; reservation_id = absent; message = absent }) r),
          record w { inventory = s },
        );
  }

-- A call of a service in the rest of the world.
abbrev pub beside : {X A B : Type 0} → (A → X → Result B × X) → A → World X → Result B × World X
beside f a w = let (r, x) = f a w.rest in (r, record w { rest = x })

-- What the orchestrator needs beside the two services.
pub record Environment (X D : Type 0) : Type 0 where
  pub str_nat : ℕ → String
  pub clock : X → ℕ
  pub str : Exception → String
  pub str_float : Option Float → String
  pub no_data : D
  pub eta : Option (D → X → Result (Option EtaResult) × X)
  pub order : Option (StatusUpdate → X → Result (Unit {0}) × X)

-- The services that the orchestrator is constructed with.
abbrev pub platform : {X D : Type 0} → Environment X D → RunDraw → Services (World X) D
platform env draw = record {
  clock = λ w. env.clock w.rest;
  str = env.str;
  str_float = env.str_float;
  no_data = env.no_data;
  authorize = Adapters.authorize env.str_nat (client draw);
  refund = Adapters.refund env.str_nat (client draw);
  reserve = Adapters.reserve env.str_nat (client draw);
  eta = elim env.eta [ none ↦ none | some f ↦ some (beside f) ];
  order = elim env.order [ none ↦ none | some f ↦ some (beside f) ];
}
