-- ===== src/Notifier/Tests.antt =====
-- services/notifier/app.py on one order.
use delivery_time_prediction.Prelude.{ℕ, String, ◌≡◌, refl, true, false, [], arith}
use delivery_time_prediction.Saga.Services.{val, absent}
use delivery_time_prediction.Notifier.{
  Payload, NotifierService, handle_event, notification_for, processed_count, clear,
}
use delivery_time_prediction.Notifier.Once.{IsOnce, handle_event-IsOnce}

abbrev str : ℕ → String
str n = "30"

abbrev fresh : NotifierService
fresh = record { processed_events = []; notifications = [] }

abbrev payload : Payload ℕ
payload = record { order_id = val "o1"; eta_minutes = val 30; reason = absent }

fresh-IsOnce : IsOnce fresh
unfolding IsOnce
fresh-IsOnce i = (refl, omega arith)

handle_event-IsOnce_example : IsOnce (handle_event str "order.confirmed" "e1" payload fresh).1
handle_event-IsOnce_example =
    handle_event-IsOnce str "order.confirmed" "e1" payload fresh fresh-IsOnce

sent : (handle_event str "order.confirmed" "e1" payload fresh).0 ≡ true
unfolding handle_event notification_for
sent = refl

unknown_type : handle_event str "order.created" "e1" payload fresh ≡ (false, fresh)
unfolding handle_event notification_for
unknown_type = refl

one_processed : processed_count (handle_event str "order.confirmed" "e1" payload fresh).1 ≡ 1
unfolding handle_event notification_for processed_count
one_processed = refl

cleared : clear (handle_event str "order.confirmed" "e1" payload fresh).1 ≡ fresh
unfolding clear
cleared = refl
