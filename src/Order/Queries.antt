-- ===== src/Order/Queries.antt =====
-- The order service (services/order/app.py): the handlers that list, read and update orders.
use delivery_time_prediction.Prelude.{
  ℕ, ◌+◌, ◌-◌, ◌*◌, ◌/◌, String, Bool, true, false, not, ◌&&◌, Option, none, some, List, [], ◌∷◌,
  ◌==◌, map, length, take, drop, find?, select, modify_first, concat, if◌then◌else◌, nat_eq, ltb,
}
use delivery_time_prediction.Prelude.Float.{Float}
use delivery_time_prediction.Core.Result.{Result, ok, err, http}
use delivery_time_prediction.Core.Session.{Session}
use delivery_time_prediction.Order.{
  OrderStatus, created, pending, confirmed, confirmed_degraded, cancelled, UserRole, customer,
  AuthContext, OrderResponse, Order, OrderDb,
}

-- `OrderStatus(s) if s in [...] else OrderStatus.CREATED`
pub status_of : String → OrderStatus
status_of s =
    if s == "PENDING"
    then pending
    else if s == "CONFIRMED"
    then confirmed
    else if s == "CONFIRMED_DEGRADED"
    then confirmed_degraded
    else if s == "CANCELLED"
    then cancelled
    else created

-- The response for a row; its `created_at` is the time of the response.
abbrev pub order_response : String → Order → OrderResponse
order_response now_text o = record {
  order_id = o.order_id;
  status = status_of o.status;
  total_amount = o.total_amount;
  eta_minutes = o.eta_minutes;
  eta_lower = o.eta_lower;
  eta_upper = o.eta_upper;
  degraded = not (nat_eq o.degraded 0);
  created_at = now_text;
}

abbrev pub is_customer : UserRole → Bool
is_customer customer = true
is_customer _ = false

-- A customer sees the own orders only; everybody else sees all of them.
abbrev pub may_see : AuthContext → Order → Bool
may_see auth o = if is_customer auth.role then o.customer_id == auth.user_id else true

-- `upper` is str.upper.
abbrev pub has_status : (String → String) → Option String → Order → Bool
has_status upper none o = true
has_status upper (some s) o = if s == "" then true else o.status == upper s

pub record OrderPage : Type 0 where
  pub items : List OrderResponse
  pub total : ℕ
  pub page : ℕ
  pub limit : ℕ
  pub pages : ℕ
  pub has_next : Bool
  pub has_prev : Bool

-- `math.ceil(total / limit)`
abbrev pub ceil_div : ℕ → ℕ → ℕ
ceil_div total limit = (total + (limit - 1)) / limit

-- GET /api/v1/orders. `order_by` is the ORDER BY that the database does for the text of `sort`.
module _ (upper : String → String) (order_by : String → List Order → List Order) where
  unfoldable pub matching : Option String → String → AuthContext → List Order → List Order
  matching order_status sort auth rows =
      order_by sort (select (has_status upper order_status) (select (may_see auth) rows))

  unfoldable pub list_orders :
      ℕ → ℕ → Option String → String → AuthContext → String → OrderDb → OrderPage
  unfolding matching
  list_orders page limit order_status sort auth now_text db =
      let found = matching order_status sort auth db.orders in
      let total = length found in
      let pages = if ltb 0 total then ceil_div total limit else 1 in
      record {
        items = map (order_response now_text) (take limit (drop ((page - 1) * limit) found));
        total = total;
        page = page;
        limit = limit;
        pages = pages;
        has_next = ltb page pages;
        has_prev = ltb 1 page;
      }

abbrev pub has_order_id : String → Order → Bool
has_order_id i o = o.order_id == i

abbrev not_found : {A : Type 0} → String → Result A
not_found order_id = err (http 404 (concat ("Order " ∷ order_id ∷ " not found" ∷ [])))

-- GET /api/v1/orders/{order_id}
pub get_order : String → AuthContext → String → OrderDb → Result OrderResponse
get_order order_id auth now_text db =
    elim (find? (λ o. has_order_id order_id o && may_see auth o) db.orders) [
      | none ↦ not_found order_id
      | some o ↦ ok (order_response now_text o)
    ]

-- GET /orders/{order_id}
unfoldable pub get_order_legacy : String → String → OrderDb → Result OrderResponse
get_order_legacy order_id now_text db = elim (find? (has_order_id order_id) db.orders) [
  | none ↦ not_found order_id
  | some o ↦ ok (order_response now_text o)
]

-- The assignments of `update_order_status`.
abbrev pub with_status : String → Option Float → Option Float → Option Float → Bool → Order → Order
with_status new_status none eta_lower eta_upper degraded o = record o { status = new_status }
with_status new_status (some eta) eta_lower eta_upper degraded o = record o {
  status = new_status;
  eta_minutes = some eta;
  eta_lower = eta_lower;
  eta_upper = eta_upper;
  degraded = if degraded then 1 else 0;
}

-- PATCH /orders/{order_id}
unfoldable pub update_order_status :
    String
    → String
    → Option Float
    → Option Float
    → Option Float
    → Bool
    → Session OrderDb (String × String)
update_order_status order_id new_status eta_minutes eta_lower eta_upper degraded db =
    elim (find? (has_order_id order_id) db.orders) [
      | none ↦ (not_found order_id, db)
      | some _ ↦ (
        ok (order_id, new_status),
        record db {
          orders =
              modify_first (has_order_id order_id)
                (with_status new_status eta_minutes eta_lower eta_upper degraded) db.orders;
        },
      )
    ]
