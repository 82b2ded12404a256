-- ===== src/Platform/Tests.antt =====
-- The platform with two pizzas and a till that refuses more than 500; the ETA service does not answer.
use delivery_time_prediction.Prelude.{String, ◌≢◌, refl, false≢true, eq_iff, none, some, [], ◌∷◌}
use delivery_time_prediction.Prelude.Int.{pos}
use delivery_time_prediction.Prelude.Float.{float}
use delivery_time_prediction.Core.Result.{ok}
use delivery_time_prediction.Core.Idempotency
use delivery_time_prediction.Core.Idempotency.{generate_idempotency_key, join}
use delivery_time_prediction.Saga.State.{SagaDb}
use delivery_time_prediction.Saga.Machine.{start_saga}
use delivery_time_prediction.Saga.Money.{payment_key, refund_key}
use delivery_time_prediction.Platform.{World, RunDraw, Environment, platform}
use delivery_time_prediction.Platform.Cases.{Refines}
use delivery_time_prediction.Platform.Refines.{start_saga-Refines}

abbrev env : Environment (Unit {0}) (Unit {0})
env = record {
  str_nat = λ n. "n";
  clock = λ x. 7;
  str = λ e. "error";
  str_float = λ x. "x";
  no_data = tt;
  eta = none;
  order = some (λ u x. (ok tt, x));
}

abbrev draw : RunDraw
draw = record {
  payment_id = "p1";
  refund_id = "f1";
  reservation_id = "r1";
  draw = float 0;
  now = 7;
}

abbrev shop : World (Unit {0})
shop = record {
  payments = record {
    payments = [];
    idem_store = Idempotency.empty;
    fail_rate = float 0;
    latency_ms = pos 0;
    always_fail_over = float 500;
  };
  inventory = record {
    db = record {
      inventory_items = record { item_id = "pizza"; name = "Pizza"; stock = pos 2 } ∷ [];
      reservations = [];
    };
    idem_store = Idempotency.empty;
  };
  rest = tt;
}

abbrev no_sagas : SagaDb
no_sagas = record { instances = []; step_logs = [] }

abbrev digest : String → String
digest s = s

keys_differ : payment_key digest "s1" ≢ refund_key digest "s1"
unfolding generate_idempotency_key join
keys_differ e = false≢true ((eq_iff _ _).1 e)

ids_differ : ◌≢◌ {A = String} "p1" "f1"
ids_differ e = false≢true ((eq_iff "p1" "f1").1 e)

id_named : ◌≢◌ {A = String} "p1" ""
id_named e = false≢true ((eq_iff "p1" "").1 e)

start_saga-Refines_example : Refines (float 20) ("pizza" ∷ "pizza" ∷ []) shop (
    start_saga
      (platform env draw)
      digest
      "s1"
      "o1"
      ("pizza" ∷ "pizza" ∷ [])
      (float 20)
      none
      no_sagas
      shop)
start_saga-Refines_example =
    start_saga-Refines env draw digest "s1" "o1" ("pizza" ∷ "pizza" ∷ []) (float 20) none no_sagas
      shop refl (Idempotency.get-empty _) refl keys_differ (Idempotency.get-empty _) refl ids_differ
      id_named (Idempotency.get-empty _) refl
