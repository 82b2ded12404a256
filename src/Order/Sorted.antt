-- ===== src/Order/Sorted.antt =====
-- services/order/app.py: what an ORDER BY makes of rows of which no two tie.
use delivery_time_prediction.Prelude.{
  ◌≡◌, refl, sym, ap, ◌∙◌, subst, List, [], ◌∷◌, ◌⊎◌, ◌↔◌, inl, inr,
}
use delivery_time_prediction.Order.{Order}

abbrev pub IsIn : Order → List Order → Type 0
IsIn o [] = ⊥
IsIn o (x ∷ xs) = (o ≡ x) ⊎ IsIn o xs

module _ (less : Order → Order → Type 0) where
  -- Each row before all that follow it.
  abbrev pub IsSorted : List Order → Type 0
  IsSorted [] = Unit {0}
  IsSorted (x ∷ xs) = ((o : Order) → IsIn o xs → less x o) × IsSorted xs

  -- The rows, sorted.
  abbrev pub IsOrderedBy : List Order → List Order → Type 0
  IsOrderedBy rows out = IsSorted out × ((o : Order) → IsIn o out ↔ IsIn o rows)

module _ (less : Order → Order → Type 0) (irrefl : (o : Order) → ¬ less o o)
    (trans : (a b c : Order) → less a b → less b c → less a c) where
  sorted_head :
      (x y : Order) (xs ys : List Order)
      → IsSorted less (x ∷ xs)
      → IsSorted less (y ∷ ys)
      → IsIn x (y ∷ ys)
      → IsIn y (x ∷ xs)
      → x ≡ y
  sorted_head x y xs ys h k (inl e) j = e
  sorted_head x y xs ys h k (inr i) (inl e) = sym e
  sorted_head x y xs ys h k (inr i) (inr j) = absurd (irrefl x (trans x y x (h.0 y j) (k.0 x i)))

  -- A row behind the first is not the first.
  sorted_tail :
      (x y : Order) (xs ys : List Order)
      → x ≡ y
      → IsSorted less (x ∷ xs)
      → ((o : Order) → IsIn o (x ∷ xs) → IsIn o (y ∷ ys))
      → (o : Order) → IsIn o xs
      → IsIn o ys
  sorted_tail x y xs ys e h sub o i = elim (sub o (inr i)) [
    | inl e' ↦ absurd (irrefl x (subst (less x) (e' ∙ sym e) (h.0 o i)))
    | inr j ↦ j
  ]

  -- Two sorted lists with the same rows are the same.
  sorted_unique :
      (xs ys : List Order)
      → IsSorted less xs
      → IsSorted less ys
      → ((o : Order) → IsIn o xs → IsIn o ys)
      → ((o : Order) → IsIn o ys → IsIn o xs)
      → xs ≡ ys
  sorted_unique [] [] h k f g = refl
  sorted_unique [] (y ∷ ys) h k f g = absurd (g y (inl refl))
  sorted_unique (x ∷ xs) [] h k f g = absurd (f x (inl refl))
  sorted_unique (x ∷ xs) (y ∷ ys) h k f g =
      let e = sorted_head x y xs ys h k (f x (inl refl)) (g y (inl refl)) in
      let rest =
        sorted_unique xs ys h.1 k.1 (sorted_tail x y xs ys e h f)
          (sorted_tail y x ys xs (sym e) k g) in
      ap (λ z. z ∷ xs) e ∙ ap (◌∷◌ y) rest

  pub ordered_unique :
      (rows xs ys : List Order) → IsOrderedBy less rows xs → IsOrderedBy less rows ys → xs ≡ ys
  ordered_unique rows xs ys (h, f) (k, g) =
      sorted_unique xs ys h k (λ o i. (g o).1 ((f o).0 i)) (λ o i. (f o).1 ((g o).0 i))
