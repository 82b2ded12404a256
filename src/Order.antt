-- ===== src/Order.antt =====
-- The order service (services/order/app.py, services/order/models.py, contracts/order.py). The
-- identifiers and times that a handler makes are its arguments. The column `updated_at`, which
-- nothing reads, is left out. Of a request to create an order,
-- only what the service reads is modelled.
pub mod Queries
pub mod Create
pub mod Told
pub mod Sorted
pub mod Listing
pub mod Update
mod Tests
use delivery_time_prediction.Prelude.{
  ℕ, ◌+◌, ◌-◌, ◌*◌, ◌/◌, String, Bool, true, false, not, ◌||◌, ◌&&◌, Option, none, some, List, [],
  ◌∷◌, ◌++◌, ◌==◌, map, length, take, drop, find?, select, any, modify_first, concat, if◌then◌else◌,
  nat_eq, ltb,
}
use delivery_time_prediction.Prelude.Float.{Float}
use delivery_time_prediction.Core.Result.{Result, ok, err, http, integrity_error}
use delivery_time_prediction.Core.Session.{Session, get_session, raise, ◌>>=◌, ◌>>◌}
use delivery_time_prediction.Core.Idempotency
use delivery_time_prediction.Core.Idempotency.{IdempotencyStore}
use delivery_time_prediction.Core.Outbox.{OutboxEvent, outbox_event, write_outbox_event}
use delivery_time_prediction.Events
use delivery_time_prediction.Events.{EventEnvelope, order_created, to_stream_dict}

pub data OrderStatus : Type 0 where
  created pending confirmed confirmed_degraded cancelled : OrderStatus

pub data UserRole : Type 0 where
  customer admin merchant : UserRole

pub record AuthContext : Type 0 where
  pub user_id : String
  pub role : UserRole
  pub tenant_id : Option String

pub record CreateOrderRequest : Type 0 where
  pub customer_id : String
  pub restaurant_id : String
  pub items : List String
  pub total_amount : Float

pub record OrderResponse : Type 0 where
  pub order_id : String
  pub status : OrderStatus
  pub total_amount : Float
  pub eta_minutes : Option Float
  pub eta_lower : Option Float
  pub eta_upper : Option Float
  pub degraded : Bool
  pub created_at : String

pub record Order : Type 0 where
  pub order_id : String
  pub customer_id : String
  pub restaurant_id : String
  pub items : List String
  pub total_amount : Float
  pub status : String
  pub idempotency_key : String
  pub eta_minutes : Option Float
  pub eta_lower : Option Float
  pub eta_upper : Option Float
  pub degraded : ℕ
  pub created_at : ℕ

-- The payload of an `order.created` event.
pub record OrderPayload : Type 0 where
  pub order_id : String
  pub customer_id : String
  pub restaurant_id : String
  pub items : List String
  pub total_amount : Float

pub record OrderDb : Type 0 where
  pub orders : List Order
  pub outbox_events : List OutboxEvent

pub record OrderService : Type 0 where
  pub db : OrderDb
  pub idem_store : IdempotencyStore OrderResponse

-- What uuid4 and the clock give to one call: `spare_id` is the identifier that the outbox makes if
-- the event has none.
pub record Draw : Type 0 where
  pub order_id : String
  pub event_id : String
  pub spare_id : String
  pub now : ℕ
  pub now_text : String

-- The UNIQUE columns of `orders`.
abbrev pub clashes : Order → Order → Bool
clashes new old = old.order_id == new.order_id || old.idempotency_key == new.idempotency_key

-- `session.add(order)`, with the flush at the commit.
pub add_order : Order → Session OrderDb (Unit {0})
add_order o db =
    if any (clashes o) db.orders
    then (err integrity_error, db)
    else (ok tt, record db { orders = db.orders ++ o ∷ [] })

-- A block on the outbox, in the same transaction.
abbrev pub in_outbox : {A : Type 0} → Session (List OutboxEvent) A → Session OrderDb A
in_outbox m db = let (r, rows) = m db.outbox_events in (r, record db { outbox_events = rows })

abbrev pub new_order : CreateOrderRequest → String → String → Draw → Order
new_order request customer_id idempotency_key draw = record {
  order_id = draw.order_id;
  customer_id = customer_id;
  restaurant_id = request.restaurant_id;
  items = request.items;
  total_amount = request.total_amount;
  status = "CREATED";
  idempotency_key = idempotency_key;
  eta_minutes = none;
  eta_lower = none;
  eta_upper = none;
  degraded = 0;
  created_at = draw.now;
}

abbrev created_event : CreateOrderRequest → String → String → Draw → EventEnvelope OrderPayload
created_event request customer_id idempotency_key draw = record {
  event_id = draw.event_id;
  event_type = order_created;
  event_version = "1.0.0";
  occurred_at = draw.now_text;
  correlation_id = draw.order_id;
  idempotency_key = some idempotency_key;
  traceparent = none;
  payload = record {
    order_id = draw.order_id;
    customer_id = customer_id;
    restaurant_id = request.restaurant_id;
    items = request.items;
    total_amount = request.total_amount;
  };
}

abbrev pub created_response : CreateOrderRequest → Draw → OrderResponse
created_response request draw = record {
  order_id = draw.order_id;
  status = created;
  total_amount = request.total_amount;
  eta_minutes = none;
  eta_lower = none;
  eta_upper = none;
  degraded = false;
  created_at = draw.now_text;
}

-- `dumps` is json.dumps on the payload.
module _ (dumps : OrderPayload → String) where
  abbrev pub outbox_row : CreateOrderRequest → String → String → Draw → OutboxEvent
  outbox_row request customer_id idempotency_key draw =
      let event = created_event request customer_id idempotency_key draw in
      outbox_event (Events.value order_created) "order.created" (to_stream_dict dumps event)
        (some event.event_id) draw.spare_id draw.now

  -- The `with` block of both handlers that create an order.
  pub create_block : CreateOrderRequest → String → String → Draw → Session OrderDb (Unit {0})
  create_block request customer_id idempotency_key draw = do
    add_order (new_order request customer_id idempotency_key draw)
    in_outbox (write_outbox_event (outbox_row request customer_id idempotency_key draw))

  -- What the two handlers do once the customer is known.
  pub create_for :
      CreateOrderRequest
      → String
      → String
      → Draw
      → OrderService
      → Result OrderResponse × OrderService
  unfolding get_session
  create_for request customer_id idempotency_key draw s =
      elim (Idempotency.get s.idem_store idempotency_key) [
        | some cached ↦ (ok cached.response, s)
        | none ↦
            let (r, db') =
              get_session (create_block request customer_id idempotency_key draw) s.db in
            elim r [
              | err e ↦ (err e, record s { db = db' })
              | ok _ ↦
                  let response = created_response request draw in
                  (
                    ok response,
                    record {
                      db = db';
                      idem_store =
                          Idempotency.set s.idem_store idempotency_key response 202 draw.now;
                    },
                  )
            ]
      ]

  -- POST /api/v1/orders
  pub create_order :
      CreateOrderRequest
      → String
      → AuthContext
      → Draw
      → OrderService
      → Result OrderResponse × OrderService
  unfolding create_for
  create_order request idempotency_key auth draw s =
      create_for request auth.user_id idempotency_key draw s

  -- POST /orders
  pub create_order_legacy :
      CreateOrderRequest
      → String
      → Option AuthContext
      → Draw
      → OrderService
      → Result OrderResponse × OrderService
  unfolding create_for
  create_order_legacy request idempotency_key auth draw s =
      create_for request (elim auth [ none ↦ request.customer_id | some a ↦ a.user_id ])
        idempotency_key draw s
