-- ===== src/Inventory/Release.antt =====
-- services/inventory/app.py: what POST /inventory/release gives back.
use delivery_time_prediction.Prelude.{
  ℕ, String, ◌≡◌, ◌≢◌, ◌+◌, inl, inr, false, none, some, List, [], ◌∷◌, ◌++◌, arith, eq_refl,
  eq_of_ne, count, find?, any, modify_first,
}
use delivery_time_prediction.Prelude.Int.{pos, ◌+ℤ◌, int_laws}
use delivery_time_prediction.Core.Result.{Result, ok, err}
use delivery_time_prediction.Core.Idempotency
use delivery_time_prediction.Core.Idempotency.{get-set}
use delivery_time_prediction.Inventory.{
  InventoryService, Reservation, ReserveStockRequest, ReleaseStockRequest, ReservationResponse,
  has_reservation_id, released, reserved, get_item_stock, add_stocks, clashes, release_block,
  release_response, release_stock, reserve_stock,
}
use delivery_time_prediction.Inventory.Stock.{
  AllListed, AllListed-add_stocks, times_neg, times_pos, get_item_stock-add_stocks,
}
use delivery_time_prediction.Inventory.Reserve.{
  reservation_of, TookStock, CallEnds, reserve_stock_ends,
}

-- The service after a release that found `reservation`.
abbrev after_release : ReleaseStockRequest → ℕ → Reservation → InventoryService → InventoryService
after_release request now reservation s = record {
  db = record {
    inventory_items = add_stocks (pos 1) reservation.items s.db.inventory_items;
    reservations =
        modify_first (has_reservation_id request.reservation_id)
          (λ r. record r { status = released }) s.db.reservations;
  };
  idem_store =
      Idempotency.set s.idem_store request.idempotency_key
        (release_response request reservation.items) 200 now;
}

release_stock-found :
    (request : ReleaseStockRequest) (now : ℕ) (s : InventoryService) (reservation : Reservation)
    → Idempotency.get s.idem_store request.idempotency_key ≡ none
    → find? (has_reservation_id request.reservation_id) s.db.reservations ≡ some reservation
    → release_stock request now s
      ≡ (ok (release_response request reservation.items), after_release request now reservation s)
unfolding release_stock release_block
release_stock-found request now s reservation h f = ground arith

find_recorded :
    (r : Reservation) (rows : List Reservation)
    → any (clashes r) rows ≡ false
    → find? (has_reservation_id r.reservation_id) (rows ++ r ∷ []) ≡ some r
find_recorded r [] h = rw eq_refl
find_recorded r (x ∷ rows) h = ground (arith, find_recorded r rows)

-- A release under a key that is not cached that finds its reservation, whose items all have rows,
-- gives each item one unit for each of its occurrences in the reservation, and no other item
-- anything.
pub release_stock-stock :
    (request : ReleaseStockRequest) (now : ℕ) (s : InventoryService) (reservation : Reservation)
    → Idempotency.get s.idem_store request.idempotency_key ≡ none
    → find? (has_reservation_id request.reservation_id) s.db.reservations ≡ some reservation
    → AllListed reservation.items s.db.inventory_items
    → (j : String)
    → get_item_stock j (release_stock request now s).1.db.inventory_items
      ≡ get_item_stock j s.db.inventory_items +ℤ pos (count j reservation.items)
release_stock-stock request now s reservation h f listed j =
    rw (release_stock-found request now s reservation h f) (
      rw (← times_pos (count j reservation.items))
        (get_item_stock-add_stocks j (pos 1) reservation.items s.db.inventory_items listed))

find_modified :
    (i : String) (rows : List Reservation) (r : Reservation)
    → find? (has_reservation_id i) rows ≡ some r
    → find?
        (has_reservation_id i)
        (modify_first (has_reservation_id i) (λ r. record r { status = released }) rows)
      ≡ some (record r { status = released })
find_modified i [] r h = cc
find_modified i (x ∷ rows) r h = ground (arith, find_modified i rows r)

reserved_took :
    (request : ReserveStockRequest) (reservation_id : String) (now : ℕ) (s : InventoryService)
    (r : Result ReservationResponse × InventoryService) (response : ReservationResponse)
    → CallEnds request reservation_id now s r
    → r.0 ≡ ok response
    → response.status ≡ reserved
    → TookStock request reservation_id now s.db r.1.db
reserved_took request reservation_id now s (ok x, s') response (inl (_, took), _) e k = took
reserved_took request reservation_id now s (ok x, s') response (inr (out, _), _) e k = cc
reserved_took request reservation_id now s (err x, s') response h e k = cc

-- If a call under a key that was not cached has just answered RESERVED, then releasing its
-- reservation, under a key that is not cached either, gives every item the stock that it had before
-- that call.
pub release_stock-reserve_stock :
    (request : ReserveStockRequest) (reservation_id : String) (now later : ℕ)
    (release : ReleaseStockRequest) (s : InventoryService) (response : ReservationResponse)
    → Idempotency.get s.idem_store request.idempotency_key ≡ none
    → (reserve_stock request reservation_id now s).0 ≡ ok response
    → response.status ≡ reserved
    → release.reservation_id ≡ reservation_id
    → Idempotency.get
        (reserve_stock request reservation_id now s).1.idem_store
        release.idempotency_key
      ≡ none
    → (j : String)
    → get_item_stock j
        (release_stock release later
          (reserve_stock request reservation_id now s).1).1.db.inventory_items
      ≡ get_item_stock j s.db.inventory_items
release_stock-reserve_stock request reservation_id now later release s response h e status same
      uncached j =
    let took =
      reserved_took request reservation_id now s (reserve_stock request reservation_id now s)
        response (reserve_stock_ends request reservation_id now s h) e status in
    let s' = (reserve_stock request reservation_id now s).1 in
    let found : find? (has_reservation_id release.reservation_id) s'.db.reservations
        ≡ some (reservation_of request reservation_id now) =
      rw (same, took.recorded)
        (find_recorded (reservation_of request reservation_id now) s.db.reservations took.unused) in
    rw (release_stock-stock release later s' _ uncached found took.still_listed j, took.taken)
      (omega (int_laws, times_neg (count j request.items)))

-- Nothing looks at the status of a reservation: releasing one reservation twice, under two
-- different keys that are not cached, adds its items to the stock twice, if they all have rows.
pub release_stock_twice :
    (first second : ReleaseStockRequest) (now later : ℕ) (s : InventoryService)
    (reservation : Reservation)
    → Idempotency.get s.idem_store first.idempotency_key ≡ none
    → Idempotency.get s.idem_store second.idempotency_key ≡ none
    → first.idempotency_key ≢ second.idempotency_key
    → second.reservation_id ≡ first.reservation_id
    → find? (has_reservation_id first.reservation_id) s.db.reservations ≡ some reservation
    → AllListed reservation.items s.db.inventory_items
    → (j : String)
    → get_item_stock j
        (release_stock second later (release_stock first now s).1).1.db.inventory_items
      ≡ get_item_stock j s.db.inventory_items
        +ℤ pos (count j reservation.items + count j reservation.items)
release_stock_twice first second now later s reservation h k ne same f listed j =
    let s' = (release_stock first now s).1 in
    let step = release_stock-found first now s reservation h f in
    let uncached : Idempotency.get s'.idem_store second.idempotency_key ≡ none =
      rw (step, get-set, eq_of_ne _ _ ne) k in
    let found : find? (has_reservation_id second.reservation_id) s'.db.reservations
        ≡ some (record reservation { status = released }) =
      rw (step, same) (find_modified first.reservation_id s.db.reservations reservation f) in
    let still : AllListed reservation.items s'.db.inventory_items =
      rw step (AllListed-add_stocks (pos 1) reservation.items reservation.items _ listed) in
    rw
      (
        release_stock-stock second later s' _ uncached found still j,
        release_stock-stock first now s reservation h f listed j,
      )
      (omega int_laws)
