-- ===== src/Inventory/FlashSale.antt =====
-- services/inventory/app.py under a flash sale: many callers, one item. The row lock of
-- `with_for_update` makes the calls take turns, so the sale is the sequence of their turns.
use Prim.Native.Nat.{min}
use delivery_time_prediction.Prelude.{
  ℕ, zero, suc, ◌-◌, String, ◌≡◌, ◌≢◌, ap, true, false, ◌||◌, none, some, List, [], ◌∷◌, ◌++◌,
  arith, eq_refl, eq_of_ne, any, All, length,
}
use delivery_time_prediction.Prelude.Int.{pos, int_laws}
use delivery_time_prediction.Core.Result.{Result, ok, err}
use delivery_time_prediction.Core.Idempotency
use delivery_time_prediction.Core.Idempotency.{get-set}
use delivery_time_prediction.Inventory.{
  InventoryService, Reservation, ReserveStockRequest, ReservationResponse, reserved, get_item_stock,
  in_stock, clashes, reserve_response, reserve_stock, first_out_of_stock,
}
use delivery_time_prediction.Inventory.Stock.{
  is_listed, in_stock_iff, times_neg, is_listed-add_stocks,
}
use delivery_time_prediction.Inventory.Reserve.{
  reservation_of, answered, taken_db, reserve_stock_takes, reserve_stock-missing, taken_db-stock,
}

-- One caller: the order, the key, the identifier that the service draws, and the time of its turn.
pub record Shopper : Type 0 where
  pub order_id : String
  pub key : String
  pub reservation_id : String
  pub now : ℕ

abbrev pub request_for : String → Shopper → ReserveStockRequest
request_for i x = record { order_id = x.order_id; items = i ∷ []; idempotency_key = x.key }

-- The calls for item `i`, in the order of their turns, and their answers.
pub flash_sale :
    String → List Shopper → InventoryService → List (Result ReservationResponse) × InventoryService
flash_sale i [] s = ([], s)
flash_sale i (x ∷ xs) s =
    let (r, s') = reserve_stock (request_for i x) x.reservation_id x.now s in
    let (rs, t) = flash_sale i xs s' in (r ∷ rs, t)

-- The answers that say RESERVED.
pub count_reserved : List (Result ReservationResponse) → ℕ
count_reserved [] = 0
count_reserved (err _ ∷ rs) = count_reserved rs
count_reserved (ok response ∷ rs) = elim response.status [
  | reserved ↦ suc (count_reserved rs)
  | _ ↦ count_reserved rs
]

-- Neither the key nor the identifier of the caller has been used.
abbrev pub IsUnused : String → Shopper → InventoryService → Type 0
IsUnused i x s =
    (Idempotency.get s.idem_store x.key ≡ none)
    × (any (clashes (reservation_of (request_for i x) x.reservation_id x.now)) s.db.reservations
        ≡ false)

abbrev pub Apart : Shopper → Shopper → Type 0
Apart x y = (x.key ≢ y.key) × (x.reservation_id ≢ y.reservation_id)

-- All callers come with unused keys and identifiers, different from one another.
abbrev pub AreFresh : String → List Shopper → InventoryService → Type 0
AreFresh i [] s = Unit
AreFresh i (x ∷ xs) s = IsUnused i x s × All (Apart x) xs × AreFresh i xs s

module _ (i : String) where
  abbrev after_missing : Shopper → InventoryService → InventoryService
  after_missing x s = answered (request_for i x) x.reservation_id x.now (some i) s.db s

  abbrev after_taken : Shopper → InventoryService → InventoryService
  after_taken x s =
      answered (request_for i x) x.reservation_id x.now none
        (taken_db (request_for i x) x.reservation_id x.now s.db) s

  any-append :
      (r x : Reservation) (rows : List Reservation)
      → any (clashes r) (rows ++ x ∷ []) ≡ (any (clashes r) rows || clashes r x)
  any-append r x [] = ground arith
  any-append r x (y ∷ rows) = ground (arith, any-append r x rows)

  IsUnused-missing :
      (x y : Shopper) (s : InventoryService)
      → Apart x y
      → IsUnused i y s
      → IsUnused i y (after_missing x s)
  IsUnused-missing x y s a u = (rw (get-set, eq_of_ne _ _ a.0) u.0, u.1)

  IsUnused-taken :
      (x y : Shopper) (s : InventoryService)
      → Apart x y
      → IsUnused i y s
      → IsUnused i y (after_taken x s)
  IsUnused-taken x y s a u =
      (rw (get-set, eq_of_ne _ _ a.0) u.0, rw (any-append, u.1, eq_of_ne _ _ a.0, eq_of_ne _ _ a.1))

  AreFresh-missing :
      (x : Shopper) (ys : List Shopper) (s : InventoryService)
      → All (Apart x) ys
      → AreFresh i ys s
      → AreFresh i ys (after_missing x s)
  AreFresh-missing x [] s a u = tt
  AreFresh-missing x (y ∷ ys) s a u =
      (IsUnused-missing x y s a.0 u.0, u.1, AreFresh-missing x ys s a.1 u.2)

  AreFresh-taken :
      (x : Shopper) (ys : List Shopper) (s : InventoryService)
      → All (Apart x) ys
      → AreFresh i ys s
      → AreFresh i ys (after_taken x s)
  AreFresh-taken x [] s a u = tt
  AreFresh-taken x (y ∷ ys) s a u =
      (IsUnused-taken x y s a.0 u.0, u.1, AreFresh-taken x ys s a.1 u.2)

  sold_out :
      (x : Shopper) (s : InventoryService)
      → IsUnused i x s
      → get_item_stock i s.db.inventory_items ≡ pos 0
      → reserve_stock (request_for i x) x.reservation_id x.now s
        ≡ (ok (reserve_response (request_for i x) x.reservation_id (some i)), after_missing x s)
  unfolding first_out_of_stock
  sold_out x s u h =
      reserve_stock-missing (request_for i x) x.reservation_id x.now s i u.0
        (ground (arith, (in_stock_iff s.db.inventory_items i).0))

  served :
      (x : Shopper) (n : ℕ) (s : InventoryService)
      → IsUnused i x s
      → in_stock s.db.inventory_items i ≡ true
      → reserve_stock (request_for i x) x.reservation_id x.now s
        ≡ (ok (reserve_response (request_for i x) x.reservation_id none), after_taken x s)
  served x n s u e = reserve_stock_takes (request_for i x) x.reservation_id x.now s u.0 (e, tt) u.1

  one_less :
      (x : Shopper) (n : ℕ) (s : InventoryService)
      → in_stock s.db.inventory_items i ≡ true
      → get_item_stock i s.db.inventory_items ≡ pos (suc n)
      → get_item_stock i (after_taken x s).db.inventory_items ≡ pos n
  one_less x n s e h =
      rw (taken_db-stock (request_for i x) x.reservation_id x.now s.db i (e, tt), h, eq_refl)
        (omega (int_laws, (times_neg 1).0, (times_neg 1).1))

  available :
      (n : ℕ) (s : InventoryService)
      → is_listed i s.db.inventory_items ≡ true
      → get_item_stock i s.db.inventory_items ≡ pos (suc n)
      → in_stock s.db.inventory_items i ≡ true
  available n s l h = (in_stock_iff s.db.inventory_items i).1 (l, rw h (omega arith))

  -- Of the callers that take turns at an item with a row, all with unused keys and identifiers that
  -- differ from one another, exactly as many are answered RESERVED as there are units, or all of
  -- them if there are units enough; the stock that is left is what they did not take.
  pub flash_sale_exact :
      (xs : List Shopper) (n : ℕ) (s : InventoryService)
      → AreFresh i xs s
      → is_listed i s.db.inventory_items ≡ true
      → get_item_stock i s.db.inventory_items ≡ pos n
      → (count_reserved (flash_sale i xs s).0 ≡ min n (length xs))
        × (get_item_stock i (flash_sale i xs s).1.db.inventory_items ≡ pos (n - length xs))
  unfolding flash_sale count_reserved
  flash_sale_exact [] n s f l h = (omega arith, rw h (ap pos (omega arith)))
  flash_sale_exact (x ∷ xs) zero s f l h =
      let (reserved_rest, stock_rest) =
        flash_sale_exact xs zero (after_missing x s) (AreFresh-missing x xs s f.1 f.2) l h in
      rw (sold_out x s f.0 h) (rw reserved_rest (omega arith), rw stock_rest (ap pos (omega arith)))
  flash_sale_exact (x ∷ xs) (suc n) s f l h =
      let e = available n s l h in
      let (reserved_rest, stock_rest) =
        flash_sale_exact xs n (after_taken x s) (AreFresh-taken x xs s f.1 f.2)
          (rw is_listed-add_stocks l) (one_less x n s e h) in
      rw (served x n s f.0 e) (rw reserved_rest (omega arith), rw stock_rest (ap pos (omega arith)))
