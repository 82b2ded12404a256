-- ===== src/Inventory/Tests.antt =====
-- services/inventory/app.py on a shop with three pizzas and one burger: each theorem at work, and
-- runs of the handlers.
use delivery_time_prediction.Prelude.{
  String, ◌≡◌, ◌≢◌, refl, false≢true, ap, true, false, none, some, [], ◌∷◌, arith, eq_iff, ◌==◌,
  Bool-cases, inl, inr, subst, count, concat, ◌≤◌,
}
use delivery_time_prediction.Prelude.Int.{pos, negsuc, ◌≤ℤ◌, ◌+ℤ◌}
use delivery_time_prediction.Core.Result.{ok, err, http}
use delivery_time_prediction.Core.Idempotency
use delivery_time_prediction.Core.Idempotency.{get-set}
use delivery_time_prediction.Inventory.{
  InventoryService, ReserveStockRequest, ReleaseStockRequest, Reservation, get_item_stock,
  reserve_response, reserve_stock, release_stock, set_stock, first_out_of_stock, in_stock,
  add_stock, add_stocks, reserve_block, add_reservation, release_block,
}
use delivery_time_prediction.Inventory.Stock.{AllListed, is_listed}
use delivery_time_prediction.Inventory.Reserve.{CallEnds, reserve_stock_ends, reservation_of}
use delivery_time_prediction.Inventory.Safety.{
  IsStocked, IsDistinct, reserve_stock-IsStocked, reserve_stock_oversells,
}
use delivery_time_prediction.Inventory.Release.{release_stock-reserve_stock, release_stock_twice}
use delivery_time_prediction.Inventory.FlashSale.{
  Shopper, flash_sale, count_reserved, flash_sale_exact,
}

abbrev shop : InventoryService
shop = record {
  db = record {
    inventory_items =
        record { item_id = "pizza"; name = "Pizza"; stock = pos 3 }
        ∷ record { item_id = "burger"; name = "Burger"; stock = pos 1 }
        ∷ [];
    reservations = [];
  };
  idem_store = Idempotency.empty;
}

abbrev lunch : ReserveStockRequest
lunch = record { order_id = "o1"; items = "pizza" ∷ "burger" ∷ []; idempotency_key = "k1" }

abbrev two_burgers : ReserveStockRequest
two_burgers = record { order_id = "o2"; items = "burger" ∷ "burger" ∷ []; idempotency_key = "k2" }

abbrev give_back : String → ReleaseStockRequest
give_back key = record { order_id = "o1"; reservation_id = "r1"; idempotency_key = key }

abbrev booked : Reservation
booked = reservation_of lunch "r1" 5

abbrev sold : InventoryService
sold = record {
  db = record {
    inventory_items =
        record { item_id = "pizza"; name = "Pizza"; stock = pos 2 }
        ∷ record { item_id = "burger"; name = "Burger"; stock = pos 0 }
        ∷ [];
    reservations = booked ∷ [];
  };
  idem_store = Idempotency.set Idempotency.empty "k1" (reserve_response lunch "r1" none) 200 5;
}

uncached : (k : String) → Idempotency.get shop.idem_store k ≡ none
uncached k = Idempotency.get-empty k

sold_free : (k : String) → ("k1" == k) ≡ false → Idempotency.get sold.idem_store k ≡ none
sold_free k ne = rw (get-set, ne) (uncached k)

reserve_stock-lunch :
    reserve_stock lunch "r1" 5 shop ≡ (ok (reserve_response lunch "r1" none), sold)
unfolding reserve_stock reserve_block first_out_of_stock in_stock add_stocks add_stock
    add_reservation ◌+ℤ◌
reserve_stock-lunch = rw (reserve_stock, uncached "k1") refl

second_lunch_missing :
    (reserve_stock (record lunch { idempotency_key = "k3" }) "r2" 6 sold).0
    ≡ ok (reserve_response (record lunch { idempotency_key = "k3" }) "r2" (some "burger"))
unfolding reserve_stock reserve_block first_out_of_stock in_stock
second_lunch_missing = rw (reserve_stock, sold_free "k3" refl) refl

unknown_release :
    (release_stock (give_back "k4") 6 shop).0
    ≡ err (http 404 (concat ("Reservation " ∷ "r1" ∷ " not found" ∷ [])))
unfolding release_stock release_block
unknown_release = rw (release_stock, uncached "k4") refl

restocked : get_item_stock "burger" (set_stock "burger" (pos 9) shop).db.inventory_items ≡ pos 9
unfolding set_stock get_item_stock
restocked = refl

reserve_stock_ends_example : CallEnds lunch "r1" 5 shop (reserve_stock lunch "r1" 5 shop)
reserve_stock_ends_example = reserve_stock_ends lunch "r1" 5 shop (uncached "k1")

shop-IsStocked : IsStocked shop
unfolding IsStocked get_item_stock
shop-IsStocked j = ground arith

lunch-IsDistinct : IsDistinct lunch.items
unfolding IsDistinct
lunch-IsDistinct j = elim (Bool-cases ("pizza" == j)) [
  | inl e ↦ subst (λ i. count i lunch.items ≤ 1) ((eq_iff "pizza" j).0 e) (omega arith)
  | inr e ↦ rw e (ground arith)
]

reserve_stock-IsStocked_example : IsStocked (reserve_stock lunch "r1" 5 shop).1
reserve_stock-IsStocked_example =
    reserve_stock-IsStocked lunch "r1" 5 shop lunch-IsDistinct shop-IsStocked

burgers_there : in_stock shop.db.inventory_items "burger" ≡ true
unfolding in_stock
burgers_there = refl

one_burger : get_item_stock "burger" shop.db.inventory_items ≡ pos 1
unfolding get_item_stock
one_burger = refl

reserve_stock_oversells_example :
    ((reserve_stock two_burgers "r1" 5 shop).0 ≡ ok (reserve_response two_burgers "r1" none))
    × (get_item_stock "burger" (reserve_stock two_burgers "r1" 5 shop).1.db.inventory_items
        ≤ℤ negsuc 0)
reserve_stock_oversells_example =
    reserve_stock_oversells two_burgers "r1" 5 shop "burger" 1 (uncached "k2")
      (burgers_there, (burgers_there, tt)) refl one_burger (omega arith)

key_free : Idempotency.get sold.idem_store "k4" ≡ none
key_free = sold_free "k4" refl

other_key_free : Idempotency.get sold.idem_store "k5" ≡ none
other_key_free = sold_free "k5" refl

lunch-AllListed : AllListed booked.items sold.db.inventory_items
unfolding AllListed is_listed
lunch-AllListed = (refl, (refl, tt))

key_free_after : Idempotency.get (reserve_stock lunch "r1" 5 shop).1.idem_store "k4" ≡ none
key_free_after = rw reserve_stock-lunch key_free

release_stock-reserve_stock_example :
    get_item_stock "burger"
      (release_stock (give_back "k4") 8 (reserve_stock lunch "r1" 5 shop).1).1.db.inventory_items
    ≡ get_item_stock "burger" shop.db.inventory_items
release_stock-reserve_stock_example =
    release_stock-reserve_stock lunch "r1" 5 8 (give_back "k4") shop
      (reserve_response lunch "r1" none) (uncached "k1") (ap (λ p. p.0) reserve_stock-lunch) refl
      refl key_free_after "burger"

different_keys : ◌≢◌ {A = String} "k4" "k5"
different_keys e = false≢true ((eq_iff "k4" "k5").1 e)

release_stock_twice_example :
    get_item_stock "burger"
      (release_stock
        (give_back "k5")
        9
        (release_stock (give_back "k4") 8 sold).1).1.db.inventory_items
    ≡ get_item_stock "burger" sold.db.inventory_items +ℤ pos 2
release_stock_twice_example =
    release_stock_twice (give_back "k4") (give_back "k5") 8 9 sold booked key_free other_key_free
      different_keys refl refl lunch-AllListed "burger"

abbrev anna : Shopper
anna = record { order_id = "o1"; key = "k1"; reservation_id = "r1"; now = 1 }

abbrev ben : Shopper
ben = record { order_id = "o2"; key = "k2"; reservation_id = "r2"; now = 2 }

keys_differ : ◌≢◌ {A = String} "k1" "k2"
keys_differ e = false≢true ((eq_iff "k1" "k2").1 e)

ids_differ : ◌≢◌ {A = String} "r1" "r2"
ids_differ e = false≢true ((eq_iff "r1" "r2").1 e)

burger-is_listed : is_listed "burger" shop.db.inventory_items ≡ true
unfolding is_listed
burger-is_listed = refl

flash_sale_exact_example :
    (count_reserved (flash_sale "burger" (anna ∷ ben ∷ []) shop).0 ≡ 1)
    × (get_item_stock "burger" (flash_sale "burger" (anna ∷ ben ∷ []) shop).1.db.inventory_items
        ≡ pos 0)
flash_sale_exact_example =
    flash_sale_exact "burger" (anna ∷ ben ∷ []) 1 shop
      ((uncached "k1", refl), ((keys_differ, ids_differ), tt), ((uncached "k2", refl), tt, tt))
      burger-is_listed one_burger
