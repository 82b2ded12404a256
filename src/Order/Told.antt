-- ===== src/Order/Told.antt =====
-- services/order/app.py: the outbox stays in step with the orders.
use delivery_time_prediction.Prelude.{
  String, ◌≡◌, refl, ap, inl, inr, Option, some, List, [], ◌∷◌, ◌++◌, map, Bool-cases, Option-cases,
}
use delivery_time_prediction.Prelude.Dict.{lookup}
use delivery_time_prediction.Core.Idempotency
use delivery_time_prediction.Events.{to_stream_dict}
use delivery_time_prediction.Order.{
  AuthContext, CreateOrderRequest, OrderPayload, OrderDb, OrderService, Draw, create_for,
  create_order, create_order_legacy,
}
use delivery_time_prediction.Order.Create.{
  added, refused, create_for-cached, create_for-accepted, create_for-refused,
}

-- The outbox tells of every order, in the order of their creation, and of nothing else.
unfoldable pub IsTold : OrderDb → Type 0
IsTold db =
    map (λ o. some o.order_id) db.orders
    ≡ map (λ e. lookup "correlation_id" e.payload) db.outbox_events

map-append : {A B : Type 0} (f : A → B) (xs ys : List A) → map f (xs ++ ys) ≡ map f xs ++ map f ys
map-append f [] ys = refl
map-append f (x ∷ xs) ys = ap (λ r. f x ∷ r) (map-append f xs ys)

module _ (dumps : OrderPayload → String) (request : CreateOrderRequest) (key : String)
    (draw : Draw) where
  IsTold-added :
      (customer_id : String) (db : OrderDb)
      → IsTold db
      → IsTold (added dumps request customer_id key draw db)
  unfolding IsTold to_stream_dict lookup
  IsTold-added customer_id db h = rw (map-append, map-append, h) refl

  create_for-IsTold :
      (customer_id : String) (s : OrderService)
      → IsTold s.db
      → IsTold (create_for dumps request customer_id key draw s).1.db
  create_for-IsTold customer_id s h = elim (Option-cases (Idempotency.get s.idem_store key)) [
    | inr (e, c) ↦ rw (create_for-cached dumps request customer_id key draw s e c) h
    | inl c ↦ elim (Bool-cases (refused dumps request customer_id key draw s.db)) [
      | inl d ↦ rw (create_for-refused dumps request customer_id key draw s c d) h
      | inr d ↦
          rw (create_for-accepted dumps request customer_id key draw s c d)
            (IsTold-added customer_id s.db h)
    ]
  ]

  -- A creation of an order keeps the outbox in step with the orders, by either route: POST
  -- /api/v1/orders for a caller with a token, and POST /orders with or without one.
  pub create_order-IsTold :
      (auth : AuthContext) (visitor : Option AuthContext) (s : OrderService)
      → IsTold s.db
      → IsTold (create_order dumps request key auth draw s).1.db
        × IsTold (create_order_legacy dumps request key visitor draw s).1.db
  unfolding create_order create_order_legacy
  create_order-IsTold auth visitor s h =
      (create_for-IsTold auth.user_id s h, create_for-IsTold _ s h)
