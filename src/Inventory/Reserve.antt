-- ===== src/Inventory/Reserve.antt =====
-- services/inventory/app.py: what POST /inventory/reserve promises.
use mathlib.Core.List.{Memᴰ}
use delivery_time_prediction.Prelude.{
  ℕ, String, ◌≡◌, refl, sym, subst, ◌⊎◌, inl, inr, true, false, Option, none, some, List, [], ◌∷◌,
  ◌++◌, arith, eq_refl, count, any, All, Bool-cases, Option-cases,
}
use delivery_time_prediction.Prelude.Int.{pos, negsuc, ◌+ℤ◌, ◌≤ℤ◌}
use delivery_time_prediction.Core.Result.{Exception, Result, ok, err, integrity_error}
use delivery_time_prediction.Core.Idempotency
use delivery_time_prediction.Core.Idempotency.{get-set}
use delivery_time_prediction.Inventory.{
  InventoryItem, InventoryDb, InventoryService, Reservation, ReserveStockRequest,
  ReservationResponse, reserved, out_of_stock, get_item_stock, in_stock, first_out_of_stock,
  add_stocks, clashes, reserve_block, reserve_response, reserve_stock,
}
use delivery_time_prediction.Inventory.Stock.{
  AllListed, AllListed-add_stocks, times, get_item_stock-add_stocks, first_out_of_stock-none,
}

abbrev pub reservation_of : ReserveStockRequest → String → ℕ → Reservation
reservation_of request reservation_id now = record {
  reservation_id = reservation_id;
  order_id = request.order_id;
  items = request.items;
  status = reserved;
  idempotency_key = request.idempotency_key;
  created_at = now;
}

-- Every requested item was there, each occurrence took one unit, and the reservation was recorded.
pub record TookStock (request : ReserveStockRequest) (reservation_id : String) (now : ℕ)
    (before after : InventoryDb) : Type 0 where
  pub listed : AllListed request.items before.inventory_items
  pub still_listed : AllListed request.items after.inventory_items
  pub stocked : All (λ i. pos 1 ≤ℤ get_item_stock i before.inventory_items) request.items
  pub taken :
      (j : String)
      → get_item_stock j after.inventory_items
        ≡ get_item_stock j before.inventory_items +ℤ times (count j request.items) (negsuc 0)
  pub unused : any (clashes (reservation_of request reservation_id now)) before.reservations ≡ false
  pub recorded :
      after.reservations ≡ before.reservations ++ reservation_of request reservation_id now ∷ []

-- Some requested item had no row or no stock, and nothing changed.
pub record RanOut (request : ReserveStockRequest) (before after : InventoryDb) : Type 0 where
  pub item : String
  pub requested : Memᴰ item request.items
  pub missing : in_stock before.inventory_items item ≡ false
  pub same : after ≡ before

first_out_of_stock-some :
    (rows : List InventoryItem) (is : List String) (i : String)
    → first_out_of_stock rows is ≡ some i
    → Memᴰ i is × (in_stock rows i ≡ false)
unfolding first_out_of_stock
first_out_of_stock-some rows [] i h = cc
first_out_of_stock-some rows (j ∷ is) i h = elim (Bool-cases (in_stock rows j)) [
  | inl e ↦ let (m, out) = first_out_of_stock-some rows is i (ground arith) in (Memᴰ.tail m, out)
  | inr e ↦
      let same : j ≡ i = ground arith in
      (Memᴰ.head (sym same), subst (λ k. in_stock rows k ≡ false) same e)
]

module _ (request : ReserveStockRequest) (reservation_id : String) (now : ℕ) where
  -- The block, by how it ends.
  abbrev BlockEnds : InventoryDb → Result (Option String) × InventoryDb → Type 0
  BlockEnds db (ok none, db') = TookStock request reservation_id now db db'
  BlockEnds db (ok (some _), db') = RanOut request db db'
  BlockEnds db (err e, db') = e ≡ integrity_error

  abbrev pub taken_db : InventoryDb → InventoryDb
  taken_db db = record {
    inventory_items = add_stocks (negsuc 0) request.items db.inventory_items;
    reservations = db.reservations ++ reservation_of request reservation_id now ∷ [];
  }

  pub reserve_block-ran_out :
      (db : InventoryDb) (i : String)
      → first_out_of_stock db.inventory_items request.items ≡ some i
      → reserve_block request reservation_id now db ≡ (ok (some i), db)
  unfolding reserve_block
  reserve_block-ran_out db i e = ground arith

  reserve_block-clash :
      (db : InventoryDb)
      → first_out_of_stock db.inventory_items request.items ≡ none
      → any (clashes (reservation_of request reservation_id now)) db.reservations ≡ true
      → (reserve_block request reservation_id now db).0 ≡ err integrity_error
  unfolding reserve_block
  reserve_block-clash db e c = ground arith

  pub reserve_block-taken :
      (db : InventoryDb)
      → first_out_of_stock db.inventory_items request.items ≡ none
      → any (clashes (reservation_of request reservation_id now)) db.reservations ≡ false
      → reserve_block request reservation_id now db ≡ (ok none, taken_db db)
  unfolding reserve_block
  reserve_block-taken db e c = ground arith

  abbrev pub answered : Option String → InventoryDb → InventoryService → InventoryService
  answered missing db' s = record {
    db = db';
    idem_store =
        Idempotency.set s.idem_store request.idempotency_key
          (reserve_response request reservation_id missing) 200 now;
  }

  pub reserve_stock-ok :
      (s : InventoryService) (missing : Option String) (db' : InventoryDb)
      → Idempotency.get s.idem_store request.idempotency_key ≡ none
      → reserve_block request reservation_id now s.db ≡ (ok missing, db')
      → reserve_stock request reservation_id now s
        ≡ (ok (reserve_response request reservation_id missing), answered missing db' s)
  unfolding reserve_stock
  reserve_stock-ok s missing db' h e = ground arith

  reserve_stock-err :
      (s : InventoryService) (x : Exception)
      → Idempotency.get s.idem_store request.idempotency_key ≡ none
      → (reserve_block request reservation_id now s.db).0 ≡ err x
      → reserve_stock request reservation_id now s ≡ (err x, s)
  unfolding reserve_stock
  reserve_stock-err s x h e = ground arith

  cached_after :
      (s : InventoryService) (missing : Option String) (db' : InventoryDb)
      → Idempotency.get (answered missing db' s).idem_store request.idempotency_key
        ≡ some (record {
          response = reserve_response request reservation_id missing;
          status_code = 200;
          cached_at = now;
        })
  cached_after s missing db' = simp (get-set, eq_refl)

  -- How a call ends that finds nothing cached under its key.
  abbrev pub CallEnds : InventoryService → Result ReservationResponse × InventoryService → Type 0
  CallEnds s (ok response, s') =
      ((response.status ≡ reserved) × TookStock request reservation_id now s.db s'.db
        ⊎ (response.status ≡ out_of_stock) × RanOut request s.db s'.db)
      × (Idempotency.get s'.idem_store request.idempotency_key
          ≡ some (record { response = response; status_code = 200; cached_at = now }))
  CallEnds s (err e, s') = (e ≡ integrity_error) × (s' ≡ s)

  -- A call with a key that is not cached reserves every item and takes one unit of stock for each
  -- occurrence, or answers OUT_OF_STOCK and leaves the database as it was, in both cases caching
  -- its answer under the key; or it raises IntegrityError and leaves the whole service as it was.
  pub reserve_stock_ends :
      (s : InventoryService)
      → Idempotency.get s.idem_store request.idempotency_key ≡ none
      → CallEnds s (reserve_stock request reservation_id now s)
  reserve_stock_ends s h =
      let db = s.db in
      elim (Option-cases (first_out_of_stock db.inventory_items request.items)) [
        | inr (i, e) ↦
            let (m, out) = first_out_of_stock-some db.inventory_items request.items i e in
            rw (reserve_stock-ok s (some i) db h (reserve_block-ran_out db i e)) (
              inr (refl, record { item = i; requested = m; missing = out; same = refl }),
              cached_after s (some i) db,
            )
        | inl e ↦
            let (listed, stocked) = first_out_of_stock-none db.inventory_items request.items e in
            elim (Bool-cases
              (any (clashes (reservation_of request reservation_id now)) db.reservations)) [
                | inl clash ↦
                    rw (reserve_stock-err s integrity_error h (reserve_block-clash db e clash))
                      (refl, refl)
                | inr fresh ↦
                    rw (reserve_stock-ok s none (taken_db db) h (reserve_block-taken db e fresh)) (
                      inl (
                        refl,
                        record {
                          listed = listed;
                          still_listed =
                              AllListed-add_stocks (negsuc 0) request.items request.items _ listed;
                          stocked = stocked;
                          taken = λ j.
                              get_item_stock-add_stocks j (negsuc 0) request.items
                                db.inventory_items listed;
                          unused = fresh;
                          recorded = refl;
                        },
                      ),
                      cached_after s none (taken_db db),
                    )
              ]
      ]

-- With every requested item in stock, and an unused identifier and key, the call reserves.
All-in_stock :
    (rows : List InventoryItem) (is : List String)
    → All (λ i. in_stock rows i ≡ true) is
    → first_out_of_stock rows is ≡ none
unfolding first_out_of_stock
All-in_stock rows [] h = refl
All-in_stock rows (i ∷ is) h = ground (arith, All-in_stock rows is h.1)

module _ (request : ReserveStockRequest) (reservation_id : String) (now : ℕ) where
  pub reserve_stock_takes :
      (s : InventoryService)
      → Idempotency.get s.idem_store request.idempotency_key ≡ none
      → All (λ i. in_stock s.db.inventory_items i ≡ true) request.items
      → any (clashes (reservation_of request reservation_id now)) s.db.reservations ≡ false
      → reserve_stock request reservation_id now s ≡ (
        ok (reserve_response request reservation_id none),
        answered request reservation_id now none (taken_db request reservation_id now s.db) s,
      )
  reserve_stock_takes s h a fresh =
      reserve_stock-ok request reservation_id now s none _ h
        (reserve_block-taken request reservation_id now s.db (All-in_stock _ _ a) fresh)

  pub taken_db-stock :
      (db : InventoryDb) (j : String)
      → All (λ i. in_stock db.inventory_items i ≡ true) request.items
      → get_item_stock j (taken_db request reservation_id now db).inventory_items
        ≡ get_item_stock j db.inventory_items +ℤ times (count j request.items) (negsuc 0)
  taken_db-stock db j a =
      get_item_stock-add_stocks j (negsuc 0) request.items db.inventory_items
        (first_out_of_stock-none db.inventory_items request.items (All-in_stock _ _ a)).0

  -- With an item out of stock, the call answers so.
  pub reserve_stock-missing :
      (s : InventoryService) (i : String)
      → Idempotency.get s.idem_store request.idempotency_key ≡ none
      → first_out_of_stock s.db.inventory_items request.items ≡ some i
      → reserve_stock request reservation_id now s ≡ (
        ok (reserve_response request reservation_id (some i)),
        answered request reservation_id now (some i) s.db s,
      )
  reserve_stock-missing s i h e =
      reserve_stock-ok request reservation_id now s (some i) s.db h
        (reserve_block-ran_out request reservation_id now s.db i e)
