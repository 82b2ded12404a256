-- ===== src/Order/Update.antt =====
-- services/order/app.py: what an update of an order shows to those who read it.
use delivery_time_prediction.Prelude.{
  String, ◌≡◌, refl, subst, Bool, false, Option, none, some, List, [], ◌∷◌, arith, ◌==◌, eq_iff,
  find?, modify_first, if◌then◌else◌, Bool-cases, inl, inr,
}
use delivery_time_prediction.Prelude.Float.{Float}
use delivery_time_prediction.Core.Result.{ok}
use delivery_time_prediction.Order.{Order, OrderDb}
use delivery_time_prediction.Order.Queries.{
  has_order_id, with_status, update_order_status, get_order_legacy, order_response,
}

find-updated :
    (i : String) (f : Order → Order) (rows : List Order) (o : Order)
    → ((o : Order) → (f o).order_id ≡ o.order_id)
    → find? (has_order_id i) rows ≡ some o
    → find? (has_order_id i) (modify_first (has_order_id i) f rows) ≡ some (f o)
find-updated i f [] o same h = cc
find-updated i f (x ∷ rows) o same h = ground (arith, find-updated i f rows o same, same x)

find-other :
    (i j : String) (f : Order → Order) (rows : List Order)
    → ((o : Order) → (f o).order_id ≡ o.order_id)
    → (i == j) ≡ false
    → find? (has_order_id j) (modify_first (has_order_id i) f rows) ≡ find? (has_order_id j) rows
find-other i j f [] same ne = refl
find-other i j f (x ∷ rows) same ne = ground (
  arith,
  find-other i j f rows same ne,
  same x,
  eq_iff x.order_id i,
  eq_iff x.order_id j,
  eq_iff i j,
)

with_status-order_id :
    (new_status : String) (eta eta_lower eta_upper : Option Float) (degraded : Bool) (o : Order)
    → (with_status new_status eta eta_lower eta_upper degraded o).order_id ≡ o.order_id
with_status-order_id new_status none eta_lower eta_upper degraded o = refl
with_status-order_id new_status (some eta) eta_lower eta_upper degraded o = refl

module _ (i new_status : String) (eta eta_lower eta_upper : Option Float) (degraded : Bool)
    (db : OrderDb) (now_text : String) where
  -- After an update of an order that is there, reading that order shows the new status, and the new
  -- ETA if one was given; reading any other order shows what it showed before.
  pub get_order_legacy-update_order_status :
      (o : Order)
      → find? (has_order_id i) db.orders ≡ some o
      → (j : String)
      → get_order_legacy j now_text
          (update_order_status i new_status eta eta_lower eta_upper degraded db).1
        ≡ (if i == j
            then ok (
                order_response now_text (with_status new_status eta eta_lower eta_upper degraded o))
            else get_order_legacy j now_text db)
  unfolding get_order_legacy update_order_status
  get_order_legacy-update_order_status o f j =
      let same = with_status-order_id new_status eta eta_lower eta_upper degraded in
      elim (Bool-cases (i == j)) [
        | inl e ↦
            let found =
              subst
                (λ k.
                  find? (has_order_id k) (
                    modify_first (has_order_id i)
                      (with_status new_status eta eta_lower eta_upper degraded) db.orders)
                  ≡ some (with_status new_status eta eta_lower eta_upper degraded o))
                ((eq_iff i j).0 e)
                (find-updated i (with_status new_status eta eta_lower eta_upper degraded) db.orders
                  o same f) in
            rw (e, update_order_status, f, get_order_legacy, found) refl
        | inr e ↦
            rw
              (
                e,
                update_order_status,
                f,
                get_order_legacy,
                find-other i j (with_status new_status eta eta_lower eta_upper degraded) db.orders
                    same e,
              )
              refl
      ]
