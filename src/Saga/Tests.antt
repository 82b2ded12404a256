-- ===== src/Saga/Tests.antt =====
-- services/orchestrator/saga_state_machine.py with services that write down their calls.
use delivery_time_prediction.Prelude.{
  String, ◌≡◌, ◌≢◌, refl, false≢true, false, none, some, List, [], ◌∷◌, ◌++◌, eq_iff, length,
}
use delivery_time_prediction.Prelude.Float.{float}
use delivery_time_prediction.Core.Result.{Result, ok, err, integrity_error, key_error}
use delivery_time_prediction.Saga.State.{payment_pending, SagaInstance, cancelled, value, SagaDb}
use delivery_time_prediction.Saga.Services.{
  absent, val, PaymentResult, ReserveResult, EtaResult, Services,
}
use delivery_time_prediction.Saga.Session.{first_commit, transition, commit}
use delivery_time_prediction.Saga.Confirm.{ask_eta, eta_step, confirm}
use delivery_time_prediction.Saga.Compensate.{update_order}
use delivery_time_prediction.Saga.Machine.{
  new_saga, start_saga, after_begin, after_authorize, after_paid, inventory_step, after_reserve,
  after_reserved,
}
use delivery_time_prediction.Saga.Adapters.{HttpClient, refund, accept}
use delivery_time_prediction.Saga.Ends.{Ends}
use delivery_time_prediction.Saga.Run.{start_saga-Ends, start_saga_once}
use delivery_time_prediction.Saga.Money.{state_of, world, start_saga-declined, start_saga-refunded}
use delivery_time_prediction.Saga.Confirmed.{ConfirmedBy, eta_answer, start_saga-confirmed}
use delivery_time_prediction.Saga.Unidentified.{start_saga-unidentified_payment}

-- The calls so far.
abbrev Calls : Type 0
Calls = List String

abbrev digest : String → String
digest s = s

abbrev good_eta : EtaResult
good_eta = record {
  eta_minutes = val (float 30);
  lower_bound = val (float 25);
  upper_bound = val (float 35);
  degraded = val false;
  has_others = false;
}

abbrev services :
    Result PaymentResult → Result ReserveResult → Result PaymentResult → Services Calls Calls
services paid reserved refunded = record {
  clock = length;
  str = λ e. "error";
  str_float = λ x. "number";
  no_data = [];
  authorize = λ order amount key calls. (paid, calls ++ "authorize" ∷ []);
  refund = λ order payment key calls. (refunded, calls ++ "refund" ∷ []);
  reserve = λ order items key calls. (reserved, calls ++ "reserve" ∷ []);
  eta = some (λ d calls. (ok (some good_eta), calls ++ "eta" ∷ []));
  order = some (λ update calls. (ok tt, calls ++ update.new_status ∷ []));
}

abbrev paid : PaymentResult
paid = record { status = val "AUTHORIZED"; payment_id = val "p1"; message = absent }

abbrev declined : PaymentResult
declined = record { status = val "DECLINED"; payment_id = val "p1"; message = val "no funds" }

abbrev nameless : PaymentResult
nameless = record { status = val "AUTHORIZED"; payment_id = absent; message = absent }

abbrev reserved : ReserveResult
reserved = record { status = val "RESERVED"; reservation_id = val "r1"; message = absent }

abbrev unnumbered : ReserveResult
unnumbered = record { status = val "RESERVED"; reservation_id = absent; message = absent }

abbrev sold_out : ReserveResult
sold_out = record { status = val "OUT_OF_STOCK"; reservation_id = val "r1"; message = absent }

abbrev no_sagas : SagaDb
no_sagas = record { instances = []; step_logs = [] }

abbrev good : Services Calls Calls
good = services (ok paid) (ok reserved) (ok paid)

abbrev short : Services Calls Calls
short = services (ok paid) (ok sold_out) (ok paid)

abbrev broke : Services Calls Calls
broke = services (ok declined) (ok reserved) (ok paid)

abbrev unpaid : Services Calls Calls
unpaid = services (ok nameless) (ok reserved) (ok paid)

abbrev unbooked : Services Calls Calls
unbooked = services (ok paid) (ok unnumbered) (ok paid)

abbrev items : List String
items = "pizza" ∷ []

start_saga-Ends_example :
    Ends [] "s1" (start_saga short digest "s1" "o1" items (float 20) none no_sagas [])
start_saga-Ends_example =
    start_saga-Ends short digest "s1" "o1" items (float 20) none no_sagas [] refl

abbrev one_saga : SagaDb
one_saga = record { instances = new_saga "s0" "o1" 0 ∷ []; step_logs = [] }

start_saga_once_example :
    start_saga good digest "s1" "o1" items (float 20) none one_saga []
    ≡ (err integrity_error, one_saga, [])
start_saga_once_example =
    start_saga_once good digest "s1" "o1" items (float 20) none one_saga [] refl

start_saga-declined_example :
    (state_of (start_saga broke digest "s1" "o1" items (float 20) none no_sagas [])
      ≡ some cancelled)
    × (world (start_saga broke digest "s1" "o1" items (float 20) none no_sagas [])
        ≡ "authorize" ∷ [])
start_saga-declined_example =
    start_saga-declined broke digest "s1" "o1" items (float 20) none no_sagas [] refl (ok declined)
      ("authorize" ∷ []) refl refl

p1_ne_empty : ◌≢◌ {A = String} "p1" ""
p1_ne_empty e = false≢true ((eq_iff "p1" "").1 e)

start_saga-refunded_example :
    (state_of (start_saga short digest "s1" "o1" items (float 20) none no_sagas [])
      ≡ some cancelled)
    × (world (start_saga short digest "s1" "o1" items (float 20) none no_sagas [])
        ≡ "authorize" ∷ "reserve" ∷ "refund" ∷ "CANCELLED" ∷ [])
unfolding update_order
start_saga-refunded_example =
    start_saga-refunded short digest "s1" "o1" items (float 20) none no_sagas [] refl paid "p1"
      ("authorize" ∷ []) refl refl refl p1_ne_empty (ok sold_out) ("authorize" ∷ "reserve" ∷ [])
      refl refl (ok paid) ("authorize" ∷ "reserve" ∷ "refund" ∷ []) refl

start_saga-confirmed_example :
    ConfirmedBy good "p1"
      (some "r1")
      (eta_answer good none ("authorize" ∷ "reserve" ∷ [])).0
      (eta_answer good none ("authorize" ∷ "reserve" ∷ [])).1
      (start_saga good digest "s1" "o1" items (float 20) none no_sagas [])
start_saga-confirmed_example =
    start_saga-confirmed good digest "s1" "o1" items (float 20) none no_sagas [] refl paid "p1"
      ("authorize" ∷ []) refl refl refl reserved (some "r1") ("authorize" ∷ "reserve" ∷ []) refl
      refl refl

-- The calls of a good run, in their order.
good_calls :
    world (start_saga good digest "s1" "o1" items (float 20) none no_sagas [])
    ≡ "authorize" ∷ "reserve" ∷ "eta" ∷ "CONFIRMED" ∷ []
unfolding start_saga first_commit after_begin transition after_authorize after_paid inventory_step
    after_reserve after_reserved eta_step ask_eta confirm commit update_order value
good_calls = refl

start_saga-unidentified_payment_example :
    let (r, db, calls) = start_saga unpaid digest "s1" "o1" items (float 20) none no_sagas [] in
    (r ≡ err (key_error "payment_id"))
    × (calls ≡ "authorize" ∷ [])
    × (saga : SagaInstance) × (db.instances ≡ saga ∷ [])
    × (saga.saga_id ≡ "s1")
    × (saga.order_id ≡ "o1")
    × (saga.current_state ≡ payment_pending)
    × (saga.payment_id ≡ none)
    × (saga.refund_id ≡ none)
    × (saga.error_reason ≡ none)
    × (saga.completed_at ≡ none)
start_saga-unidentified_payment_example =
    start_saga-unidentified_payment unpaid digest "s1" "o1" items (float 20) none no_sagas [] refl
      nameless ("authorize" ∷ []) refl refl refl

abbrev not_found : PaymentResult
not_found = record { status = absent; payment_id = absent; message = absent }

-- A client whose payment service answers every refund with 404.
abbrev client : HttpClient Calls
client = record {
  post_authorize =
      λ body calls. (ok (record { status_code = 200; text = ""; json = ok paid }), calls);
  post_refund =
      λ body calls. (ok (record { status_code = 404; text = ""; json = ok not_found }), calls);
  post_reserve =
      λ body calls. (ok (record { status_code = 200; text = ""; json = ok reserved }), calls);
}

refused : refund (λ n. "404") client "o1" "p1" "k1" [] ≡ (ok not_found, [])
unfolding refund accept
refused = refl
