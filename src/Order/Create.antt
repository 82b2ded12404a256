-- ===== src/Order/Create.antt =====
-- services/order/app.py: what the creation of an order promises.
use delivery_time_prediction.Prelude.{
  String, ◌≡◌, ◌≢◌, ◌==◌, eq_of_ne, refl, ap, ◌∙◌, sym, false≢true, inl, inr, Bool, true, false,
  ◌||◌, none, some, List, [], ◌∷◌, ◌++◌, arith, eq_refl, any, Bool-cases, Option-cases,
}
use delivery_time_prediction.Prelude.Dict.{lookup}
use delivery_time_prediction.Core.Result.{Result, ok, err, integrity_error}
use delivery_time_prediction.Core.Session.{
  Session, step_ok, step_err, get_session-err, get_session-ok,
}
use delivery_time_prediction.Core.Idempotency
use delivery_time_prediction.Core.Idempotency.{get-set}
use delivery_time_prediction.Core.Outbox.{OutboxEvent, pending, write_outbox_event, has_event_id}
use delivery_time_prediction.Events.{to_stream_dict, value}
use delivery_time_prediction.Order.{
  created, AuthContext, CreateOrderRequest, OrderResponse, Order, OrderPayload, OrderDb,
  OrderService, Draw, clashes, add_order, new_order, created_response, outbox_row, in_outbox,
  create_block, create_for, create_order,
}

add_order-refused :
    (o : Order) (db : OrderDb)
    → any (clashes o) db.orders ≡ true
    → add_order o db ≡ (err integrity_error, db)
unfolding add_order
add_order-refused o db c = rw (add_order, c) refl

add_order-accepted :
    (o : Order) (db : OrderDb)
    → any (clashes o) db.orders ≡ false
    → add_order o db ≡ (ok tt, record db { orders = db.orders ++ o ∷ [] })
unfolding add_order
add_order-accepted o db c = rw (add_order, c) refl

write_outbox_event-refused :
    (e : OutboxEvent) (rows : List OutboxEvent)
    → any (has_event_id e.event_id) rows ≡ true
    → write_outbox_event e rows ≡ (err integrity_error, rows)
unfolding write_outbox_event
write_outbox_event-refused e rows c = rw (write_outbox_event, c) refl

write_outbox_event-accepted :
    (e : OutboxEvent) (rows : List OutboxEvent)
    → any (has_event_id e.event_id) rows ≡ false
    → write_outbox_event e rows ≡ (ok tt, rows ++ e ∷ [])
unfolding write_outbox_event
write_outbox_event-accepted e rows c = rw (write_outbox_event, c) refl

module _ (dumps : OrderPayload → String) (request : CreateOrderRequest) (customer_id key : String)
    (draw : Draw) where
  abbrev pub added : OrderDb → OrderDb
  added db = record {
    orders = db.orders ++ new_order request customer_id key draw ∷ [];
    outbox_events = db.outbox_events ++ outbox_row dumps request customer_id key draw ∷ [];
  }

  -- Whether one of the two inserts breaks a UNIQUE constraint.
  abbrev pub refused : OrderDb → Bool
  refused db =
      any (clashes (new_order request customer_id key draw)) db.orders
      || any (has_event_id (outbox_row dumps request customer_id key draw).event_id)
          db.outbox_events

  abbrev insert_order : Session OrderDb (Unit {0})
  insert_order = add_order (new_order request customer_id key draw)

  abbrev insert_event : Unit {0} → Session OrderDb (Unit {0})
  insert_event _ = in_outbox (write_outbox_event (outbox_row dumps request customer_id key draw))

  create_block-refused :
      (db : OrderDb)
      → refused db ≡ true
      → (create_block dumps request customer_id key draw db).0 ≡ err integrity_error
  unfolding create_block
  create_block-refused db c =
      elim (Bool-cases (any (clashes (new_order request customer_id key draw)) db.orders)) [
        | inl c1 ↦
            ap (λ p. p.0)
              (step_err insert_order insert_event db db integrity_error (add_order-refused _ db c1))
        | inr c1 ↦
            ap (λ p. p.0) (step_ok insert_order insert_event db _ tt (add_order-accepted _ db c1))
            ∙ ap (λ p. p.0) (write_outbox_event-refused _ db.outbox_events (rw c1 at c))
      ]

  create_block-accepted :
      (db : OrderDb)
      → refused db ≡ false
      → create_block dumps request customer_id key draw db ≡ (ok tt, added db)
  unfolding create_block
  create_block-accepted db c =
      elim (Bool-cases (any (clashes (new_order request customer_id key draw)) db.orders)) [
        | inl c1 ↦ absurd (false≢true (sym c ∙ rw c1 refl))
        | inr c1 ↦
            step_ok insert_order insert_event db _ tt (add_order-accepted _ db c1)
            ∙ ap (λ p. (p.0, record db { orders = (added db).orders; outbox_events = p.1 }))
                (write_outbox_event-accepted _ db.outbox_events (rw c1 at c))
      ]

  pub create_for-refused :
      (s : OrderService)
      → Idempotency.get s.idem_store key ≡ none
      → refused s.db ≡ true
      → create_for dumps request customer_id key draw s ≡ (err integrity_error, s)
  unfolding create_for
  create_for-refused s h c =
      let e =
        get_session-err (create_block dumps request customer_id key draw) s.db integrity_error
          (create_block-refused s.db c) in
      ground arith

  abbrev after_create : OrderService → OrderService
  after_create s = record {
    db = added s.db;
    idem_store = Idempotency.set s.idem_store key (created_response request draw) 202 draw.now;
  }

  pub create_for-accepted :
      (s : OrderService)
      → Idempotency.get s.idem_store key ≡ none
      → refused s.db ≡ false
      → create_for dumps request customer_id key draw s
        ≡ (ok (created_response request draw), after_create s)
  unfolding create_for
  create_for-accepted s h c =
      let e =
        get_session-ok (create_block dumps request customer_id key draw) s.db (added s.db) tt
          (create_block-accepted s.db c) in
      ground arith

  pub create_for-cached :
      (s : OrderService) (e : Idempotency.Entry OrderResponse)
      → Idempotency.get s.idem_store key ≡ some e
      → create_for dumps request customer_id key draw s ≡ (ok e.response, s)
  unfolding create_for
  create_for-cached s e h = ground arith

  -- The row of an order: what was asked for, for this customer.
  abbrev pub IsOrderOf : Order → Type 0
  IsOrderOf o =
      (o.order_id ≡ draw.order_id)
      × (o.customer_id ≡ customer_id)
      × (o.restaurant_id ≡ request.restaurant_id)
      × (o.items ≡ request.items)
      × (o.total_amount ≡ request.total_amount)
      × (o.status ≡ "CREATED")
      × (o.idempotency_key ≡ key)

  -- The event of an order: what it is, whose, and what it tells.
  abbrev pub IsEventOf : OutboxEvent → Type 0
  IsEventOf e =
      (e.event_id ≡ draw.event_id)
      × (e.event_type ≡ "order.created")
      × (e.stream_name ≡ "order.created")
      × (e.status ≡ pending)
      × (e.retry_count ≡ 0)
      × (lookup "event_type" e.payload ≡ some "order.created")
      × (lookup "correlation_id" e.payload ≡ some draw.order_id)
      × (lookup "payload" e.payload
          ≡ some (
              dumps (record {
                order_id = draw.order_id;
                customer_id = customer_id;
                restaurant_id = request.restaurant_id;
                items = request.items;
                total_amount = request.total_amount;
              })))

  -- How a call ends that finds nothing cached under its key.
  abbrev pub CreateEnds : OrderService → Result OrderResponse × OrderService → Type 0
  CreateEnds s (ok response, s') =
      (response.order_id ≡ draw.order_id)
      × (response.status ≡ created)
      × (response.total_amount ≡ request.total_amount)
      × ((o : Order) × (s'.db.orders ≡ s.db.orders ++ o ∷ []) × IsOrderOf o)
      × ((e : OutboxEvent) × (s'.db.outbox_events ≡ s.db.outbox_events ++ e ∷ []) × IsEventOf e)
      × (Idempotency.get s'.idem_store key
          ≡ some (record { response = response; status_code = 202; cached_at = draw.now }))
  CreateEnds s (err e, s') =
      (e ≡ integrity_error)
      × ((any (λ o. o.order_id == draw.order_id || o.idempotency_key == key) s.db.orders
            || any (λ x. x.event_id == draw.event_id) s.db.outbox_events)
          ≡ true)
      × (s' ≡ s)

  row-IsEventOf : draw.event_id ≢ "" → IsEventOf (outbox_row dumps request customer_id key draw)
  unfolding to_stream_dict lookup value
  row-IsEventOf ne =
      rw (eq_of_ne draw.event_id "" ne) (refl, refl, refl, refl, refl, refl, refl, refl)

  create_for-CreateEnds :
      (s : OrderService)
      → draw.event_id ≢ ""
      → Idempotency.get s.idem_store key ≡ none
      → CreateEnds s (create_for dumps request customer_id key draw s)
  create_for-CreateEnds s ne h = elim (Bool-cases (refused s.db)) [
    | inl c ↦ rw (create_for-refused s h c) (refl, rw (eq_of_ne draw.event_id "" ne) at c, refl)
    | inr c ↦ rw (create_for-accepted s h c) (
      refl,
      refl,
      refl,
      (new_order request customer_id key draw, refl, (refl, refl, refl, refl, refl, refl, refl)),
      (outbox_row dumps request customer_id key draw, refl, row-IsEventOf ne),
      simp (get-set, eq_refl),
    )
  ]

-- A call with a key that is not cached inserts the order as it was asked for, for the user of the
-- token whoever the request names, together with its pending event in the outbox, which tells of the
-- same order, and caches its answer; or it raises IntegrityError, because the order's identifier or
-- key or the event's identifier is taken, and inserts neither. The identifier that uuid4 makes for
-- the event is not an empty text.
pub create_order-CreateEnds :
    (dumps : OrderPayload → String) (request : CreateOrderRequest) (key : String)
    (auth : AuthContext) (draw : Draw) (s : OrderService)
    → draw.event_id ≢ ""
    → Idempotency.get s.idem_store key ≡ none
    → CreateEnds dumps request auth.user_id key draw s (create_order dumps request key auth draw s)
unfolding create_order
create_order-CreateEnds dumps request key auth draw s ne h =
    create_for-CreateEnds dumps request auth.user_id key draw s ne h

-- What a call that was answered leaves in the cache.
create_for-answered :
    (dumps : OrderPayload → String) (request : CreateOrderRequest) (customer_id key : String)
    (draw : Draw) (s : OrderService) (response : OrderResponse)
    → (create_for dumps request customer_id key draw s).0 ≡ ok response
    → (e : Idempotency.Entry OrderResponse) × (Idempotency.get
          (create_for dumps request customer_id key draw s).1.idem_store
          key
        ≡ some e)
      × (e.response ≡ response)
create_for-answered dumps request customer_id key draw s response h =
    elim (Option-cases (Idempotency.get s.idem_store key)) [
      | inr (e, c) ↦
          let first = create_for-cached dumps request customer_id key draw s e c in
          (e, rw first c, cc (h, first))
      | inl c ↦ elim (Bool-cases (refused dumps request customer_id key draw s.db)) [
        | inl d ↦ cc (h, create_for-refused dumps request customer_id key draw s c d)
        | inr d ↦
            let first = create_for-accepted dumps request customer_id key draw s c d in
            (
              record {
                response = created_response request draw;
                status_code = 202;
                cached_at = draw.now;
              },
              rw first (simp (get-set, eq_refl)),
              cc (h, first),
            )
      ]
    ]

-- The cache looks at the key alone: once a user's call has been answered, a call of any other user
-- with the same key gets that user's answer, and creates nothing.
pub create_order-replay :
    (dumps : OrderPayload → String) (request again : CreateOrderRequest) (key : String)
    (auth other : AuthContext) (draw redraw : Draw) (s : OrderService) (response : OrderResponse)
    → (create_order dumps request key auth draw s).0 ≡ ok response
    → create_order dumps again key other redraw (create_order dumps request key auth draw s).1
      ≡ (ok response, (create_order dumps request key auth draw s).1)
unfolding create_order
create_order-replay dumps request again key auth other draw redraw s response h =
    let (e, found, same) = create_for-answered dumps request auth.user_id key draw s response h in
    let s' = (create_for dumps request auth.user_id key draw s).1 in
    create_for-cached dumps again other.user_id key redraw s' e found ∙ ap (λ x. (ok x, s')) same
