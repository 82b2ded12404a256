-- ===== src/Inventory.antt =====
-- The inventory service (services/inventory/app.py, contracts/inventory.py). Rows stand in the
-- order of their primary keys, which are not modelled otherwise; a JSON list in a text column is
-- the list; an identifier made by uuid4 and a reading of the clock are arguments of the handler.
-- The row lock makes concurrent handlers take turns, so a run of the service is a sequence of
-- whole handler calls.
pub mod Stock
pub mod Reserve
pub mod Safety
pub mod Release
pub mod FlashSale
mod Tests
use delivery_time_prediction.Prelude.{
  ℕ, String, Bool, true, false, not, ◌||◌, Option, none, some, List, [], ◌∷◌, ◌++◌, ◌==◌, concat,
  find?, any, modify_first, if◌then◌else◌,
}
use delivery_time_prediction.Prelude.Int.{ℤ, pos, negsuc, ◌+ℤ◌, leb_ℤ}
use delivery_time_prediction.Core.Result.{Result, ok, err, http, integrity_error}
use delivery_time_prediction.Core.Session.{
  Session, get_session, pure, raise, query, modify, ◌>>=◌, ◌>>◌,
}
use delivery_time_prediction.Core.Idempotency
use delivery_time_prediction.Core.Idempotency.{IdempotencyStore}

pub data InventoryStatus : Type 0 where
  reserved out_of_stock released : InventoryStatus

pub record ReserveStockRequest : Type 0 where
  pub order_id : String
  pub items : List String
  pub idempotency_key : String

pub record ReleaseStockRequest : Type 0 where
  pub order_id : String
  pub reservation_id : String
  pub idempotency_key : String

pub record ReservationResponse : Type 0 where
  pub reservation_id : String
  pub order_id : String
  pub status : InventoryStatus
  pub items : List String
  pub idempotency_key : String
  pub message : Option String

pub record InventoryItem : Type 0 where
  pub item_id : String
  pub name : String
  pub stock : ℤ

pub record Reservation : Type 0 where
  pub reservation_id : String
  pub order_id : String
  pub items : List String
  pub status : InventoryStatus
  pub idempotency_key : String
  pub created_at : ℕ

pub record InventoryDb : Type 0 where
  pub inventory_items : List InventoryItem
  pub reservations : List Reservation

pub record InventoryService : Type 0 where
  pub db : InventoryDb
  pub idem_store : IdempotencyStore ReservationResponse

abbrev pub has_item_id : String → InventoryItem → Bool
has_item_id i item = item.item_id == i

pub get_item_stock : String → List InventoryItem → ℤ
get_item_stock i rows = elim (find? (has_item_id i) rows) [ none ↦ pos 0 | some item ↦ item.stock ]

abbrev with_stock : ℤ → InventoryItem → InventoryItem
with_stock n item = record item { stock = n }

-- POST /inventory/set-stock
pub set_stock : String → ℤ → InventoryService → InventoryService
set_stock i n s = record s {
  db = record s.db {
    inventory_items =
        if any (has_item_id i) s.db.inventory_items
        then modify_first (has_item_id i) (with_stock n) s.db.inventory_items
        else s.db.inventory_items
          ++ record { item_id = i; name = concat ("Flash Item " ∷ i ∷ []); stock = n } ∷ [];
  };
}

-- `not item or item.stock <= 0`, negated.
pub in_stock : List InventoryItem → String → Bool
in_stock rows i = elim (find? (has_item_id i) rows) [
  | none ↦ false
  | some item ↦ not (leb_ℤ item.stock (pos 0))
]

-- The loop that checks every item before anything is decremented: the item that stops it.
pub first_out_of_stock : List InventoryItem → List String → Option String
first_out_of_stock rows [] = none
first_out_of_stock rows (i ∷ is) =
    let rest = first_out_of_stock rows is in if in_stock rows i then rest else some i

-- `item.stock += d` on the row of an item.
pub add_stock : String → ℤ → List InventoryItem → List InventoryItem
add_stock i d = modify_first (has_item_id i) (λ item. record item { stock = item.stock +ℤ d })

-- The loop over `request.items`, and that over `json.loads(reservation.items)`.
pub add_stocks : ℤ → List String → List InventoryItem → List InventoryItem
add_stocks d [] rows = rows
add_stocks d (i ∷ is) rows = add_stocks d is (add_stock i d rows)

-- The UNIQUE columns of `reservations`.
abbrev pub clashes : Reservation → Reservation → Bool
clashes new old =
    old.reservation_id == new.reservation_id || old.idempotency_key == new.idempotency_key

-- `session.add(reservation)`, with the flush at the commit.
pub add_reservation : Reservation → Session InventoryDb (Unit {0})
add_reservation r db =
    if any (clashes r) db.reservations
    then (err integrity_error, db)
    else (ok tt, record db { reservations = db.reservations ++ r ∷ [] })

-- The `with` block of `reserve_stock`: the item that is out of stock, if any.
pub reserve_block : ReserveStockRequest → String → ℕ → Session InventoryDb (Option String)
unfolding add_reservation
reserve_block request reservation_id now db =
    elim (first_out_of_stock db.inventory_items request.items) [
      | some i ↦ (ok (some i), db)
      | none ↦
          (do
            modify λ d. record d {
              inventory_items = add_stocks (negsuc 0) request.items d.inventory_items;
            }
            add_reservation (record {
              reservation_id = reservation_id;
              order_id = request.order_id;
              items = request.items;
              status = reserved;
              idempotency_key = request.idempotency_key;
              created_at = now;
            })
            pure none)
            db
    ]

abbrev pub reserve_response : ReserveStockRequest → String → Option String → ReservationResponse
reserve_response request reservation_id missing = record {
  reservation_id = reservation_id;
  order_id = request.order_id;
  status = elim missing [ none ↦ reserved | some _ ↦ out_of_stock ];
  items = request.items;
  idempotency_key = request.idempotency_key;
  message = elim missing [
    | none ↦ some "Stock reserved successfully"
    | some i ↦ some (concat ("Item " ∷ i ∷ " is out of stock" ∷ []))
  ];
}

-- POST /inventory/reserve
pub reserve_stock :
    ReserveStockRequest
    → String
    → ℕ
    → InventoryService
    → Result ReservationResponse × InventoryService
unfolding get_session
reserve_stock request reservation_id now s =
    elim (Idempotency.get s.idem_store request.idempotency_key) [
      | some cached ↦ (ok cached.response, s)
      | none ↦
          let (r, db') = get_session (reserve_block request reservation_id now) s.db in
          elim r [
            | err e ↦ (err e, record s { db = db' })
            | ok missing ↦
                let response = reserve_response request reservation_id missing in
                (
                  ok response,
                  record {
                    db = db';
                    idem_store =
                        Idempotency.set s.idem_store request.idempotency_key response 200 now;
                  },
                )
          ]
    ]

abbrev pub has_reservation_id : String → Reservation → Bool
has_reservation_id i r = r.reservation_id == i

-- The `with` block of `release_stock`: the items that went back.
pub release_block : ReleaseStockRequest → Session InventoryDb (List String)
release_block request db =
    elim (find? (has_reservation_id request.reservation_id) db.reservations) [
      | none ↦
          raise (http 404 (concat ("Reservation " ∷ request.reservation_id ∷ " not found" ∷ []))) db
      | some reservation ↦ (
        ok reservation.items,
        record {
          inventory_items = add_stocks (pos 1) reservation.items db.inventory_items;
          reservations =
              modify_first (has_reservation_id request.reservation_id)
                (λ r. record r { status = released }) db.reservations;
        },
      )
    ]

abbrev pub release_response : ReleaseStockRequest → List String → ReservationResponse
release_response request items = record {
  reservation_id = request.reservation_id;
  order_id = request.order_id;
  status = released;
  items = items;
  idempotency_key = request.idempotency_key;
  message = some "Stock released (compensating action)";
}

-- POST /inventory/release
pub release_stock :
    ReleaseStockRequest → ℕ → InventoryService → Result ReservationResponse × InventoryService
unfolding get_session
release_stock request now s = elim (Idempotency.get s.idem_store request.idempotency_key) [
  | some cached ↦ (ok cached.response, s)
  | none ↦
      let (r, db') = get_session (release_block request) s.db in
      elim r [
        | err e ↦ (err e, record s { db = db' })
        | ok items ↦
            let response = release_response request items in
            (
              ok response,
              record {
                db = db';
                idem_store = Idempotency.set s.idem_store request.idempotency_key response 200 now;
              },
            )
      ]
]
