-- ===== src/Order/Listing.antt =====
-- services/order/app.py: the pages of GET /api/v1/orders, and who sees what.
use native.Mathlib.Nat.{div-lt_iff_lt-mul}
use delivery_time_prediction.Prelude.{
  ℕ, zero, suc, ◌+◌, ◌-◌, ◌*◌, ◌≤◌, ◌<◌, String, ◌≡◌, refl, sym, ap, ◌∙◌, Bool, true, Option, List,
  [], ◌∷◌, ◌++◌, map, length, take, drop, All, select, arith, eq_iff, ltb, Bool-cases, inl, inr,
}
use delivery_time_prediction.Order.{Order, OrderDb, OrderResponse, AuthContext, customer}
use delivery_time_prediction.Order.Sorted.{IsOrderedBy, ordered_unique}
use delivery_time_prediction.Order.Queries.{
  may_see, has_status, order_response, matching, list_orders, ceil_div,
}

module _ {A : Type 0} where
  take-nil : (n : ℕ) → take {A = A} n [] ≡ []
  take-nil zero = refl
  take-nil (suc n) = refl

  take-plus : (m n : ℕ) (xs : List A) → take (m + n) xs ≡ take m xs ++ take n (drop m xs)
  take-plus zero n xs = let e : 0 + n ≡ n = omega arith in ap (λ k. take k xs) e
  take-plus (suc m) n [] = take-nil _ ∙ sym (take-nil n)
  take-plus (suc m) n (x ∷ xs) =
      let e : suc m + n ≡ suc (m + n) = omega arith in
      ap (λ k. take k (x ∷ xs)) e ∙ ap (λ r. x ∷ r) (take-plus m n xs)

  take_all : (n : ℕ) (xs : List A) → length xs ≤ n → take n xs ≡ xs
  take_all n [] h = take-nil n
  take_all zero (x ∷ xs) h = absurd (omega (arith, h))
  take_all (suc n) (x ∷ xs) h = ap (λ r. x ∷ r) (take_all n xs (omega (arith, h)))

  map-append : {B : Type 0} (f : A → B) (xs ys : List A) → map f (xs ++ ys) ≡ map f xs ++ map f ys
  map-append f [] ys = refl
  map-append f (x ∷ xs) ys = ap (λ r. f x ∷ r) (map-append f xs ys)

  -- The lists `f 1`, `f 2`, ..., `f n`, one after the other.
  pub all_pages : ℕ → (ℕ → List A) → List A
  all_pages zero f = []
  all_pages (suc n) f = all_pages n f ++ f (suc n)

all_pages-cong :
    {A : Type 0} (n : ℕ) (f g : ℕ → List A) → ((p : ℕ) → f p ≡ g p) → all_pages n f ≡ all_pages n g
unfolding all_pages
all_pages-cong zero f g h = refl
all_pages-cong (suc n) f g h =
    ap (λ xs. xs ++ f (suc n)) (all_pages-cong n f g h) ∙ ap (λ ys. all_pages n g ++ ys) (h (suc n))

-- There are pages enough for everything that is found.
ceil_div_enough : (total limit : ℕ) → 1 ≤ limit → total ≤ ceil_div total limit * limit
ceil_div_enough total limit h =
    let below : total + (limit - 1) < suc (ceil_div total limit) * limit =
      (div-lt_iff_lt-mul h).0 (omega arith) in
    omega (arith, below)

module _ (upper : String → String) (order_by : String → List Order → List Order) (limit : ℕ)
    (order_status : Option String) (sort : String) (auth : AuthContext) (now_text : String)
    (db : OrderDb) where
  abbrev page_items : ℕ → List OrderResponse
  page_items p = (list_orders upper order_by p limit order_status sort auth now_text db).items

  all_pages-take :
      (n : ℕ)
      → all_pages n page_items
        ≡ map
            (order_response now_text)
            (take (n * limit) (matching upper order_by order_status sort auth db.orders))
  unfolding all_pages list_orders
  all_pages-take zero = let e : 0 * limit ≡ 0 = omega arith in rw e refl
  all_pages-take (suc n) =
      let found = matching upper order_by order_status sort auth db.orders in
      let e : suc n * limit ≡ n * limit + limit = omega arith in
      let e' : (suc n - 1) * limit ≡ n * limit = ap (λ k. k * limit) (omega arith) in
      rw (e, e', all_pages-take n, take-plus (n * limit) limit found)
        (sym (map-append (order_response now_text) _ _))

  -- The pages of queries that put the rows in one order.
  pages_of_one_order :
      (page : ℕ)
      → 1 ≤ limit
      → all_pages
          (list_orders upper order_by page limit order_status sort auth now_text db).pages
          (λ p. (list_orders upper order_by p limit order_status sort auth now_text db).items)
        ≡ map (order_response now_text) (matching upper order_by order_status sort auth db.orders)
  unfolding list_orders
  pages_of_one_order page h =
      let found = matching upper order_by order_status sort auth db.orders in
      let show = order_response now_text in
      elim (Bool-cases (ltb 0 (length found))) [
        | inl e ↦ rw e (
            all_pages-take (ceil_div (length found) limit)
            ∙ ap (λ rows. map show rows)
                (take_all _ found (ceil_div_enough (length found) limit h)))
        | inr e ↦
            rw e
              (all_pages-take 1 ∙ ap (λ rows. map show rows) (take_all _ found (ground (arith, e))))
      ]

module _ (less : Order → Order → Type 0) (irrefl : (o : Order) → ¬ less o o)
    (trans : (a b c : Order) → less a b → less b c → less a c) where
  -- The pages that the listing counts, one after the other, show every order that is found, once and
  -- in order: no page boundary loses or repeats one. Each page is a query of its own (`order_by p` is
  -- the ORDER BY of the query for page `p`), which puts the rows that are found in the order that the
  -- sort asks for. No two of them tie in it: the code has no tie-breaker.
  pub list_orders-all_pages :
      (upper : String → String) (order_by : ℕ → String → List Order → List Order) (limit : ℕ)
      (order_status : Option String) (sort : String) (auth : AuthContext) (now_text : String)
      (db : OrderDb) (page : ℕ)
      → 1 ≤ limit
      → (found : List Order)
      → select (has_status upper order_status) (select (may_see auth) db.orders) ≡ found
      → ((p : ℕ) → IsOrderedBy less found (order_by p sort found))
      → all_pages
          (list_orders upper (order_by page) page limit order_status sort auth now_text db).pages
          (λ p. (list_orders upper (order_by p) p limit order_status sort auth now_text db).items)
        ≡ map (order_response now_text) (order_by page sort found)
  unfolding list_orders matching
  list_orders-all_pages upper order_by limit order_status sort auth now_text db page h found e
        ordered =
      let rows = select (has_status upper order_status) (select (may_see auth) db.orders) in
      let same : (p : ℕ) → order_by p sort rows ≡ order_by page sort rows = λ p. rw e (
        ordered_unique less irrefl trans found (order_by p sort found) (order_by page sort found)
          (ordered p) (ordered page)) in
      all_pages-cong
        (list_orders upper (order_by page) page limit order_status sort auth now_text db).pages
        (λ p. (list_orders upper (order_by p) p limit order_status sort auth now_text db).items)
        (λ p. (list_orders upper (order_by page) p limit order_status sort auth now_text db).items)
        (λ p.
          ap (λ found'. map (order_response now_text) (take limit (drop ((p - 1) * limit) found')))
            (same p))
      ∙ pages_of_one_order upper (order_by page) limit order_status sort auth now_text db page h
      ∙ ap (λ r. map (order_response now_text) (order_by page sort r)) e

All-select :
    {A : Type 0} (P : A → Type 0) (p : A → Bool) (rows : List A)
    → ((a : A) → p a ≡ true → P a)
    → All P (select p rows)
All-select P p [] h = tt
All-select P p (x ∷ rows) h = elim (Bool-cases (p x)) [
  | inl e ↦ rw e (h x e, All-select P p rows h)
  | inr e ↦ rw e (All-select P p rows h)
]

All-select_of_All :
    {A : Type 0} (P : A → Type 0) (p : A → Bool) (rows : List A)
    → All P rows
    → All P (select p rows)
All-select_of_All P p [] h = tt
All-select_of_All P p (x ∷ rows) h = elim (Bool-cases (p x)) [
  | inl e ↦ rw e (h.0, All-select_of_All P p rows h.1)
  | inr e ↦ rw e (All-select_of_All P p rows h.1)
]

-- What an ORDER BY does not do: it brings in no row.
unfoldable pub AddsNothing : (String → List Order → List Order) → Type 1
AddsNothing order_by =
    (P : Order → Type 0) (sort : String) (rows : List Order)
    → All P rows
    → All P (order_by sort rows)

-- With an ORDER BY that adds no row, a customer's listing is made from the customer's own orders
-- only, whatever filter and sort it asks for.
pub matching_own :
    (upper : String → String) (order_by : String → List Order → List Order)
    (order_status : Option String) (sort : String) (auth : AuthContext) (rows : List Order)
    → AddsNothing order_by
    → auth.role ≡ customer
    → All (λ o. o.customer_id ≡ auth.user_id) (matching upper order_by order_status sort auth rows)
unfolding matching AddsNothing
matching_own upper order_by order_status sort auth rows adds c = adds _ sort _ (
    All-select_of_All _ (has_status upper order_status) _
      (All-select _ (may_see auth) rows (λ o e. ground (arith, eq_iff o.customer_id auth.user_id))))
