-- ===== src/Inventory/Stock.antt =====
-- services/inventory/app.py: what the loops over the requested items do to the stock of each item.
use delivery_time_prediction.Prelude.{
  ℕ, zero, suc, String, ◌≡◌, refl, sym, ◌∙◌, ◌↔◌, Bool, true, none, List, [], ◌∷◌, arith, ◌==◌,
  eq_iff, count, any, All, if◌then◌else◌,
}
use delivery_time_prediction.Prelude.Int.{
  ℤ, pos, negsuc, ◌+ℤ◌, ◌≤ℤ◌, int_laws, pos_part, neg_part, canonical,
}
use delivery_time_prediction.Inventory.{
  InventoryItem, has_item_id, get_item_stock, in_stock, first_out_of_stock, add_stock, add_stocks,
}

-- An item has a row.
unfoldable pub is_listed : String → List InventoryItem → Bool
is_listed i rows = any (has_item_id i) rows

+ℤ_zero : (a : ℤ) → a +ℤ pos 0 ≡ a
+ℤ_zero a = omega int_laws

abbrev pub when : Bool → ℤ → ℤ
when b d = if b then d else pos 0

-- One assignment changes the stock of its item and of no other.
pub get_item_stock-add_stock :
    (i j : String) (d : ℤ) (rows : List InventoryItem)
    → is_listed i rows ≡ true
    → get_item_stock j (add_stock i d rows) ≡ get_item_stock j rows +ℤ when (i == j) d
unfolding get_item_stock add_stock is_listed
get_item_stock-add_stock i j d [] h = cc
get_item_stock-add_stock i j d (r ∷ rows) h = ground (
  arith,
  eq_iff r.item_id i,
  eq_iff r.item_id j,
  eq_iff i j,
  +ℤ_zero r.stock,
  +ℤ_zero (get_item_stock j rows),
  get_item_stock-add_stock i j d rows,
)

is_listed-add_stock :
    (i j : String) (d : ℤ) (rows : List InventoryItem)
    → is_listed j (add_stock i d rows) ≡ is_listed j rows
unfolding add_stock is_listed
is_listed-add_stock i j d [] = refl
is_listed-add_stock i j d (r ∷ rows) = ground (arith, is_listed-add_stock i j d rows)

pub is_listed-add_stocks :
    (j : String) (d : ℤ) (is : List String) (rows : List InventoryItem)
    → is_listed j (add_stocks d is rows) ≡ is_listed j rows
unfolding add_stocks
is_listed-add_stocks j d [] rows = refl
is_listed-add_stocks j d (i ∷ is) rows =
    is_listed-add_stocks j d is (add_stock i d rows) ∙ is_listed-add_stock i j d rows

-- Every item of the list has a row.
unfoldable pub AllListed : List String → List InventoryItem → Type 0
AllListed is rows = All (λ i. is_listed i rows ≡ true) is

AllListed-add_stock :
    (i : String) (d : ℤ) (is : List String) (rows : List InventoryItem)
    → AllListed is rows
    → AllListed is (add_stock i d rows)
unfolding AllListed
AllListed-add_stock i d [] rows h = tt
AllListed-add_stock i d (j ∷ is) rows h =
    (rw (is_listed-add_stock i j d rows) h.0, AllListed-add_stock i d is rows h.1)

pub AllListed-add_stocks :
    (d : ℤ) (is js : List String) (rows : List InventoryItem)
    → AllListed is rows
    → AllListed is (add_stocks d js rows)
unfolding add_stocks
AllListed-add_stocks d is [] rows h = h
AllListed-add_stocks d is (j ∷ js) rows h =
    AllListed-add_stocks d is js _ (AllListed-add_stock j d is rows h)

-- `n` times `d`, by addition.
pub times : ℕ → ℤ → ℤ
times zero d = pos 0
times (suc n) d = d +ℤ times n d

-- The whole loop changes the stock of an item by `d` for each of its occurrences.
pub get_item_stock-add_stocks :
    (j : String) (d : ℤ) (is : List String) (rows : List InventoryItem)
    → AllListed is rows
    → get_item_stock j (add_stocks d is rows) ≡ get_item_stock j rows +ℤ times (count j is) d
unfolding add_stocks AllListed times
get_item_stock-add_stocks j d [] rows h = sym (+ℤ_zero _)
get_item_stock-add_stocks j d (i ∷ is) rows h = grind (
  int_laws,
  get_item_stock-add_stocks j d is (add_stock i d rows) (AllListed-add_stock i d is rows h.1),
  get_item_stock-add_stock i j d rows h.0,
)

-- The check passes an item exactly when it has a row with stock left.
pub in_stock_iff :
    (rows : List InventoryItem) (i : String)
    → (in_stock rows i ≡ true) ↔ ((is_listed i rows ≡ true) × (pos 1 ≤ℤ get_item_stock i rows))
unfolding in_stock is_listed get_item_stock
in_stock_iff [] i = ((λ h. cc), (λ h. cc))
in_stock_iff (r ∷ rows) i = ground (arith, in_stock_iff rows i)

pub first_out_of_stock-none :
    (rows : List InventoryItem) (is : List String)
    → first_out_of_stock rows is ≡ none
    → AllListed is rows × All (λ i. pos 1 ≤ℤ get_item_stock i rows) is
unfolding first_out_of_stock AllListed
first_out_of_stock-none rows [] h = (tt, tt)
first_out_of_stock-none rows (i ∷ is) h =
    ground (arith, first_out_of_stock-none rows is, in_stock_iff rows i)

pub times_neg : (n : ℕ) → (pos_part (times n (negsuc 0)) ≡ 0) × (neg_part (times n (negsuc 0)) ≡ n)
unfolding times
times_neg zero = (refl, refl)
times_neg (suc n) =
    omega (int_laws, (times_neg n).0, (times_neg n).1, canonical (negsuc 0 +ℤ times n (negsuc 0)))

pub times_pos : (n : ℕ) → times n (pos 1) ≡ pos n
unfolding times
times_pos zero = refl
times_pos (suc n) = rw (times_pos n) (omega int_laws)
