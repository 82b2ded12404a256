-- ===== src/Notifier.antt =====
-- services/notifier/app.py. A payload is what the handler reads of it; `str` is Python's str of the
-- ETA in it.
pub mod Once
mod Tests
use delivery_time_prediction.Prelude.{
  ℕ, suc, String, Bool, true, false, Option, none, some, List, [], ◌∷◌, ◌++◌, ◌==◌, any, concat,
  length, if◌then◌else◌,
}
use delivery_time_prediction.Saga.Services.{Field, absent, null, val, get_or}

pub data NotificationType : Type 0 where
  order_confirmed order_cancelled : NotificationType

pub record Notification : Type 0 where
  pub event_id : String
  pub type_of : NotificationType
  pub order_id : Option String
  pub message : String
  pub channel : String

-- What the payload holds under the three keys that are read, each of which may be absent or None.
pub record Payload (E : Type 0) : Type 0 where
  pub order_id : Field String
  pub eta_minutes : Field E
  pub reason : Field String

-- `_processed_events` is a set, whose elements are listed in the order in which they came.
pub record NotifierService : Type 0 where
  pub processed_events : List String
  pub notifications : List Notification

-- What a format string makes of a text or None.
abbrev text_of : Option String → String
text_of none = "None"
text_of (some s) = s

module _ {E : Type 0} (str : E → String) where
  -- The notification for an event, if its type is known.
  pub notification_for : String → String → Payload E → Option Notification
  notification_for event_type event_id payload =
      let order_id = get_or payload.order_id "unknown" in
      if event_type == "order.confirmed"
      then some (record {
        event_id = event_id;
        type_of = order_confirmed;
        order_id = order_id;
        message = concat (
            "Your order "
            ∷ text_of order_id
            ∷ " has been confirmed! Estimated delivery: "
            ∷ elim payload.eta_minutes [ absent ↦ "N/A" | null ↦ "None" | val e ↦ str e ]
            ∷ " minutes."
            ∷ []);
        channel = "push_notification";
      })
      else if event_type == "order.cancelled"
      then some (record {
        event_id = event_id;
        type_of = order_cancelled;
        order_id = order_id;
        message = concat (
            "Your order "
            ∷ text_of order_id
            ∷ " has been cancelled. Reason: "
            ∷ text_of (get_or payload.reason "N/A")
            ∷ ". Refund will be processed."
            ∷ []);
        channel = "push_notification";
      })
      else none

  pub handle_event : String → String → Payload E → NotifierService → Bool × NotifierService
  handle_event event_type event_id payload s =
      if any (λ i. i == event_id) s.processed_events
      then (false, s)
      else elim (notification_for event_type event_id payload) [
        | none ↦ (false, s)
        | some n ↦ (
          true,
          record {
            processed_events = event_id ∷ s.processed_events;
            notifications = s.notifications ++ n ∷ [];
          },
        )
      ]

pub processed_count : NotifierService → ℕ
processed_count s = length s.processed_events

pub clear : NotifierService → NotifierService
clear s = record { processed_events = []; notifications = [] }
