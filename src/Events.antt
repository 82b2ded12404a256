-- ===== src/Events.antt =====
-- contracts/events.py: the envelope of every event, and its form in a Redis stream. A payload is of
-- any type `P`; `dumps` and `loads` are json.dumps and json.loads on it.
pub mod RoundTrip
pub mod Streams
mod Tests
use delivery_time_prediction.Prelude.{
  String, Option, none, some, List, [], ◌∷◌, ◌==◌, if◌then◌else◌,
}
use delivery_time_prediction.Prelude.Dict.{lookup}
use delivery_time_prediction.Core.Result.{Result, ok, err, value_error, ◌>>=◌}
use delivery_time_prediction.Core.Outbox.{StreamDict}

pub data EventType : Type 0 where
  order_created payment_authorized payment_failed payment_refunded : EventType
  inventory_reserved inventory_out_of_stock inventory_released : EventType
  eta_predicted order_confirmed order_cancelled order_delivered : EventType

-- `.value`
unfoldable pub value : EventType → String
value order_created = "order.created"
value payment_authorized = "payment.authorized"
value payment_failed = "payment.failed"
value payment_refunded = "payment.refunded"
value inventory_reserved = "inventory.reserved"
value inventory_out_of_stock = "inventory.out_of_stock"
value inventory_released = "inventory.released"
value eta_predicted = "eta.predicted"
value order_confirmed = "order.confirmed"
value order_cancelled = "order.cancelled"
value order_delivered = "order.delivered"

abbrev all_types : List EventType
all_types =
    order_created ∷ payment_authorized ∷ payment_failed ∷ payment_refunded ∷ inventory_reserved
    ∷ inventory_out_of_stock ∷ inventory_released ∷ eta_predicted ∷ order_confirmed
    ∷ order_cancelled ∷ order_delivered ∷ []

type_among : List EventType → String → Result EventType
type_among [] s = err value_error
type_among (t ∷ ts) s = if value t == s then ok t else type_among ts s

-- `EventType(s)`
pub event_type_of : Option String → Result EventType
unfolding type_among
event_type_of none = err value_error
event_type_of (some s) = type_among all_types s

pub record EventEnvelope (P : Type 0) : Type 0 where
  pub event_id : String
  pub event_type : EventType
  pub event_version : String
  pub occurred_at : String
  pub correlation_id : String
  pub idempotency_key : Option String
  pub traceparent : Option String
  pub payload : P

abbrev pub or_empty : Option String → String
or_empty none = ""
or_empty (some s) = s

-- `x or None`
abbrev pub or_none : Option String → Option String
or_none none = none
or_none (some s) = if s == "" then none else some s

-- `d.get(k, default)`
abbrev pub get_or : StreamDict → String → String → String
get_or d k default = elim (lookup k d) [ none ↦ default | some v ↦ v ]

module _ {P : Type 0} where
  unfoldable pub to_stream_dict : (P → String) → EventEnvelope P → StreamDict
  to_stream_dict dumps e =
      ("event_id", e.event_id)
      ∷ ("event_type", value e.event_type)
      ∷ ("event_version", e.event_version)
      ∷ ("occurred_at", e.occurred_at)
      ∷ ("correlation_id", e.correlation_id)
      ∷ ("idempotency_key", or_empty e.idempotency_key)
      ∷ ("traceparent", or_empty e.traceparent)
      ∷ ("payload", dumps e.payload)
      ∷ []

  -- `event_id`, `occurred_at` and `correlation_id` are the defaults, made by uuid4 and the clock.
  pub from_stream_dict :
      (String → Result P) → String → String → String → StreamDict → Result (EventEnvelope P)
  from_stream_dict loads event_id occurred_at correlation_id d = do
    payload ← loads (get_or d "payload" "{}")
    event_type ← event_type_of (lookup "event_type" d)
    ok (record {
      event_id = get_or d "event_id" event_id;
      event_type = event_type;
      event_version = get_or d "event_version" "1.0.0";
      occurred_at = get_or d "occurred_at" occurred_at;
      correlation_id = get_or d "correlation_id" correlation_id;
      idempotency_key = or_none (lookup "idempotency_key" d);
      traceparent = or_none (lookup "traceparent" d);
      payload = payload;
    })
