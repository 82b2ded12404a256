-- ===== src/Inventory/Safety.antt =====
-- services/inventory/app.py: retries of a reservation, and what keeps stock from going below zero.
use delivery_time_prediction.Prelude.{
  ℕ, ◌≤◌, ◌<◌, String, ◌≡◌, refl, ap, ◌∙◌, subst, ◌==◌, eq_iff, ◌⊎◌, inl, inr, true, false, none,
  some, List, [], ◌∷◌, arith, count, any, All, Bool-cases, Option-cases,
}
use delivery_time_prediction.Prelude.Int.{pos, negsuc, ◌≤ℤ◌, int_laws}
use delivery_time_prediction.Core.Result.{Result, ok, err}
use delivery_time_prediction.Core.Idempotency
use delivery_time_prediction.Core.Idempotency.{get-set}
use delivery_time_prediction.Inventory.{
  InventoryService, ReserveStockRequest, ReservationResponse, get_item_stock, in_stock, clashes,
  reserve_response, reserve_stock,
}
use delivery_time_prediction.Inventory.Stock.{times_neg}
use delivery_time_prediction.Inventory.Reserve.{
  reservation_of, CallEnds, reserve_stock_ends, reserve_stock_takes, taken_db-stock,
}

reserve_stock-cached :
    (request : ReserveStockRequest) (reservation_id : String) (now : ℕ) (s : InventoryService)
    (e : Idempotency.Entry ReservationResponse)
    → Idempotency.get s.idem_store request.idempotency_key ≡ some e
    → reserve_stock request reservation_id now s ≡ (ok e.response, s)
unfolding reserve_stock
reserve_stock-cached request reservation_id now s e h = ground arith

cached_of_ok :
    (request : ReserveStockRequest) (reservation_id : String) (now : ℕ) (s : InventoryService)
    (r : Result ReservationResponse × InventoryService) (response : ReservationResponse)
    → CallEnds request reservation_id now s r
    → r.0 ≡ ok response
    → (e : Idempotency.Entry ReservationResponse) × (Idempotency.get r.1.idem_store
          request.idempotency_key
        ≡ some e)
      × (e.response ≡ response)
cached_of_ok request reservation_id now s (ok x, s') response h e =
    (record { response = x; status_code = 200; cached_at = now }, h.1, cc)
cached_of_ok request reservation_id now s (err x, s') response h e = cc

-- Once a reservation has been answered, every later call with its key, whatever it asks for and
-- whenever it comes, gets the same answer, and changes nothing.
pub reserve_stock-replay :
    (request again : ReserveStockRequest) (reservation_id other_id : String) (now later : ℕ)
    (s : InventoryService) (response : ReservationResponse)
    → (reserve_stock request reservation_id now s).0 ≡ ok response
    → again.idempotency_key ≡ request.idempotency_key
    → reserve_stock again other_id later (reserve_stock request reservation_id now s).1
      ≡ (ok response, (reserve_stock request reservation_id now s).1)
reserve_stock-replay request again reservation_id other_id now later s response h k =
    elim (Option-cases (Idempotency.get s.idem_store request.idempotency_key)) [
      | inr (e, c) ↦
          let first = reserve_stock-cached request reservation_id now s e c in
          rw first (cc (h, first, reserve_stock-cached again other_id later s e (rw k c)))
      | inl c ↦
          let (e, found, same) =
            cached_of_ok request reservation_id now s (reserve_stock request reservation_id now s)
              response (reserve_stock_ends request reservation_id now s c) h in
          reserve_stock-cached again other_id later (reserve_stock request reservation_id now s).1 e
            (rw k found)
          ∙ ap (λ x. (ok x, (reserve_stock request reservation_id now s).1)) same
    ]

-- No item has less than nothing.
unfoldable pub IsStocked : InventoryService → Type 0
IsStocked s = (j : String) → pos 0 ≤ℤ get_item_stock j s.db.inventory_items

-- No item is asked for twice.
unfoldable pub IsDistinct : List String → Type 0
IsDistinct is = (j : String) → count j is ≤ 1

All-count :
    (P : String → Type 0) (j : String) (is : List String) → All P is → (count j is ≡ 0) ⊎ P j
All-count P j [] a = inl refl
All-count P j (i ∷ is) a = elim (Bool-cases (i == j)) [
  | inl e ↦ inr (subst P ((eq_iff i j).0 e) a.0)
  | inr e ↦ rw e (All-count P j is a.1)
]

IsStocked-of_CallEnds :
    (request : ReserveStockRequest) (reservation_id : String) (now : ℕ) (s : InventoryService)
    → IsDistinct request.items
    → IsStocked s
    → (r : Result ReservationResponse × InventoryService) → CallEnds request reservation_id now s r
    → IsStocked r.1
unfolding IsStocked IsDistinct
IsStocked-of_CallEnds request reservation_id now s d h (err x, s') (_, same) j = rw same (h j)
IsStocked-of_CallEnds request reservation_id now s d h (ok x, s') (inr (_, out), _) j =
    rw out.same (h j)
IsStocked-of_CallEnds request reservation_id now s d h (ok x, s') (inl (_, took), _) j =
    rw took.taken (
      omega (
        int_laws,
        d j,
        h j,
        times_neg (count j request.items),
        All-count (λ i. pos 1 ≤ℤ get_item_stock i s.db.inventory_items) j request.items
            took.stocked,
      ))

-- A call that asks for no item twice never takes the stock of any item below zero.
pub reserve_stock-IsStocked :
    (request : ReserveStockRequest) (reservation_id : String) (now : ℕ) (s : InventoryService)
    → IsDistinct request.items
    → IsStocked s
    → IsStocked (reserve_stock request reservation_id now s).1
unfolding IsStocked IsDistinct
reserve_stock-IsStocked request reservation_id now s d h =
    elim (Option-cases (Idempotency.get s.idem_store request.idempotency_key)) [
      | inr (e, c) ↦ rw (reserve_stock-cached request reservation_id now s e c) h
      | inl c ↦
          IsStocked-of_CallEnds request reservation_id now s d h
            (reserve_stock request reservation_id now s)
            (reserve_stock_ends request reservation_id now s c)
    ]

-- The check looks at each occurrence by itself: an order whose items are all in stock, under a key
-- that is not cached and with an unused key and identifier, is RESERVED also where it names one
-- item more often than there are units, and then leaves the stock of that item below zero.
pub reserve_stock_oversells :
    (request : ReserveStockRequest) (reservation_id : String) (now : ℕ) (s : InventoryService)
    (i : String) (n : ℕ)
    → Idempotency.get s.idem_store request.idempotency_key ≡ none
    → All (λ j. in_stock s.db.inventory_items j ≡ true) request.items
    → any (clashes (reservation_of request reservation_id now)) s.db.reservations ≡ false
    → get_item_stock i s.db.inventory_items ≡ pos n
    → n < count i request.items
    → let (r, s') = reserve_stock request reservation_id now s in
      (r ≡ ok (reserve_response request reservation_id none))
      × (get_item_stock i s'.db.inventory_items ≤ℤ negsuc 0)
reserve_stock_oversells request reservation_id now s i n h a fresh stock more =
    rw (reserve_stock_takes request reservation_id now s h a fresh) (
      refl,
      rw (taken_db-stock request reservation_id now s.db i a, stock)
          (omega (int_laws, times_neg (count i request.items))),
    )
