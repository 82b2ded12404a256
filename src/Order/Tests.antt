-- ===== src/Order/Tests.antt =====
-- services/order/app.py on a service with one order of Anna.
use delivery_time_prediction.Prelude.{
  String, ◌≡◌, refl, none, false≢true, eq_iff, some, List, [], ◌∷◌, map, All, arith, ℕ, ◌<◌, ◌+◌,
  sym, subst, inl, inr,
}
use delivery_time_prediction.Prelude.Float.{float}
use delivery_time_prediction.Prelude.Dict.{lookup}
use delivery_time_prediction.Core.Result.{ok}
use delivery_time_prediction.Core.Idempotency
use delivery_time_prediction.Events
use delivery_time_prediction.Order.{
  AuthContext, customer, merchant, CreateOrderRequest, OrderPayload, Order, OrderDb, OrderService,
  Draw, new_order, outbox_row, created_response, create_order, create_order_legacy,
}
use delivery_time_prediction.Order.Queries.{order_response, matching, list_orders}
use delivery_time_prediction.Order.Told.{IsTold, create_order-IsTold}
use delivery_time_prediction.Order.Create.{
  CreateEnds, create_order-CreateEnds, create_order-replay, create_for-accepted,
}
use delivery_time_prediction.Order.Sorted.{IsIn, IsOrderedBy}
use delivery_time_prediction.Order.Listing.{
  all_pages, list_orders-all_pages, AddsNothing, matching_own,
}

abbrev dumps : OrderPayload → String
dumps p = p.order_id

abbrev request : CreateOrderRequest
request = record {
  customer_id = "somebody";
  restaurant_id = "r1";
  items = "pizza" ∷ [];
  total_amount = float 20;
}

abbrev anna : AuthContext
anna = record { user_id = "anna"; role = customer; tenant_id = none }

abbrev ben : AuthContext
ben = record { user_id = "ben"; role = customer; tenant_id = none }

abbrev shop : AuthContext
shop = record { user_id = "shop"; role = merchant; tenant_id = some "t1" }

abbrev draw_of : String → String → Draw
draw_of order_id event_id = record {
  order_id = order_id;
  event_id = event_id;
  spare_id = "spare";
  now = 1;
  now_text = "today";
}

abbrev annas : Order
annas = new_order request "anna" "k1" (draw_of "o1" "e1")

abbrev db : OrderDb
db = record {
  orders = annas ∷ [];
  outbox_events = outbox_row dumps request "anna" "k1" (draw_of "o1" "e1") ∷ [];
}

abbrev service : OrderService
service = record { db = db; idem_store = Idempotency.empty }

uncached : (k : String) → Idempotency.get service.idem_store k ≡ none
uncached k = Idempotency.get-empty k

create_order-CreateEnds_example :
    CreateEnds dumps request "ben" "k2"
      (draw_of "o2" "e2")
      service
      (create_order dumps request "k2" ben (draw_of "o2" "e2") service)
create_order-CreateEnds_example =
    create_order-CreateEnds dumps request "k2" ben (draw_of "o2" "e2") service
      (λ e. false≢true ((eq_iff "e2" "").1 e)) (uncached "k2")

ben_created :
    (create_order dumps request "k2" ben (draw_of "o2" "e2") service).0
    ≡ ok (created_response request (draw_of "o2" "e2"))
unfolding create_order
ben_created =
    rw
      (create_for-accepted dumps request "ben" "k2" (draw_of "o2" "e2") service (uncached "k2")
        refl)
      refl

create_order-replay_example :
    create_order dumps request "k2" anna
      (draw_of "o3" "e3")
      (create_order dumps request "k2" ben (draw_of "o2" "e2") service).1
    ≡ (
      ok (created_response request (draw_of "o2" "e2")),
      (create_order dumps request "k2" ben (draw_of "o2" "e2") service).1,
    )
create_order-replay_example =
    create_order-replay dumps request request "k2" ben anna (draw_of "o2" "e2") (draw_of "o3" "e3")
      service (created_response request (draw_of "o2" "e2")) ben_created

told : IsTold db
unfolding IsTold Events.to_stream_dict lookup
told = refl

create_order-IsTold_example :
    IsTold (create_order dumps request "k2" ben (draw_of "o2" "e2") service).1.db
    × IsTold (create_order_legacy dumps request "k2" none (draw_of "o2" "e2") service).1.db
create_order-IsTold_example =
    create_order-IsTold dumps request "k2" (draw_of "o2" "e2") ben none service told

abbrev upper : String → String
upper s = s

abbrev order_by : String → List Order → List Order
order_by sort rows = rows

-- Two orders of Anna, of which the later comes first.
abbrev later : Order
later = record annas { order_id = "o2"; idempotency_key = "k2"; created_at = annas.created_at + 1 }

abbrev two_orders : OrderDb
two_orders = record { orders = annas ∷ later ∷ []; outbox_events = [] }

abbrev latest_first : ℕ → String → List Order → List Order
latest_first p sort (a ∷ b ∷ []) = b ∷ a ∷ []
latest_first p sort rows = rows

abbrev IsLater : Order → Order → Type 0
IsLater a b = b.created_at < a.created_at

latest_first-IsOrderedBy : IsOrderedBy IsLater (annas ∷ later ∷ []) (later ∷ annas ∷ [])
latest_first-IsOrderedBy = (
  (
    λ o i. elim i [ inl e ↦ subst (IsLater later) (sym e) (omega arith) | inr j ↦ absurd j ],
    (λ o i. absurd i, tt),
  ),
  λ o. (swapped o later annas, swapped o annas later),
)
  where
    swapped : (o a b : Order) → IsIn o (a ∷ b ∷ []) → IsIn o (b ∷ a ∷ [])
    swapped o a b (inl e) = inr (inl e)
    swapped o a b (inr (inl e)) = inl e
    swapped o a b (inr (inr i)) = absurd i

list_orders-all_pages_example :
    all_pages
      (list_orders upper (latest_first 1) 1 1 none "-created_at" anna "today" two_orders).pages
      (λ p.
        (list_orders upper (latest_first p) p 1 none "-created_at" anna "today" two_orders).items)
    ≡ map (order_response "today") (later ∷ annas ∷ [])
list_orders-all_pages_example =
    list_orders-all_pages IsLater (λ o h. omega (arith, h)) (λ a b c h k. omega (arith, h, k)) upper
      latest_first 1 none "-created_at" anna "today" two_orders 1 (omega arith) (annas ∷ later ∷ [])
      refl (λ p. latest_first-IsOrderedBy)

order_by-AddsNothing : AddsNothing order_by
unfolding AddsNothing
order_by-AddsNothing P sort rows h = h

matching_own_example :
    All (λ o. o.customer_id ≡ "ben") (matching upper order_by none "-created_at" ben db.orders)
matching_own_example =
    matching_own upper order_by none "-created_at" ben db.orders order_by-AddsNothing refl

-- A merchant is not a customer, and is shown the orders of everybody.
merchant_sees_all : matching upper order_by none "-created_at" shop db.orders ≡ db.orders
unfolding matching
merchant_sees_all = refl
