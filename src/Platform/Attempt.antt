-- ===== src/Platform/Attempt.antt =====
-- The platform as its customers see it: an attempt to order buys, or does nothing.
use delivery_time_prediction.Prelude.{String, ◌≡◌, List, count}
use delivery_time_prediction.Prelude.Int.{ℤ, negsuc, ◌+ℤ◌}
use delivery_time_prediction.Prelude.Float.{Float}
use delivery_time_prediction.Inventory.{get_item_stock}
use delivery_time_prediction.Inventory.Stock.{times}
use delivery_time_prediction.Payment.Ledger.{net}
use delivery_time_prediction.Saga.State.{SagaState, confirmed, confirmed_degraded, cancelled}
use delivery_time_prediction.Platform.{World}

module _ {X : Type 0} where
  -- The abstract view: the money that is held, and how much there is of each item.
  abbrev pub money : World X → ℤ
  money w = net w.payments.payments

  abbrev pub stock : String → World X → ℤ
  stock item w = get_item_stock item w.inventory.db.inventory_items

  -- An attempt to buy some items for an amount, between two worlds, by the state that it reports.
  pub data Attempt (amount : Float) (items : List String) (v w : World X) : SagaState → Type 0 where
    bought :
        money w ≡ money v +ℤ amount
        → ((j : String) → stock j w ≡ stock j v +ℤ times (count j items) (negsuc 0))
        → Attempt amount items v w confirmed
    bought_degraded :
        money w ≡ money v +ℤ amount
        → ((j : String) → stock j w ≡ stock j v +ℤ times (count j items) (negsuc 0))
        → Attempt amount items v w confirmed_degraded
    nothing :
        money w ≡ money v
        → ((j : String) → stock j w ≡ stock j v)
        → Attempt amount items v w cancelled
