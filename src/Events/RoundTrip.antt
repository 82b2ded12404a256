-- ===== src/Events/RoundTrip.antt =====
-- contracts/events.py: an event comes out of a stream as it went in.
use delivery_time_prediction.Prelude.{String, ◌≡◌, ◌≢◌, refl, Option, none, some, ap, eq_of_ne}
use delivery_time_prediction.Prelude.Dict.{lookup}
use delivery_time_prediction.Core.Result.{Result, ok}
use delivery_time_prediction.Events.{
  EventType, order_created, payment_authorized, payment_failed, payment_refunded,
  inventory_reserved, inventory_out_of_stock, inventory_released, eta_predicted, order_confirmed,
  order_cancelled, order_delivered, value, event_type_of, EventEnvelope, or_empty, or_none,
  to_stream_dict, from_stream_dict, type_among,
}

event_type_of-value : (t : EventType) → event_type_of (some (value t)) ≡ ok t
unfolding event_type_of value type_among
event_type_of-value order_created = refl
event_type_of-value payment_authorized = refl
event_type_of-value payment_failed = refl
event_type_of-value payment_refunded = refl
event_type_of-value inventory_reserved = refl
event_type_of-value inventory_out_of_stock = refl
event_type_of-value inventory_released = refl
event_type_of-value eta_predicted = refl
event_type_of-value order_confirmed = refl
event_type_of-value order_cancelled = refl
event_type_of-value order_delivered = refl

or_none-or_empty : (o : Option String) → o ≢ some "" → or_none (some (or_empty o)) ≡ o
or_none-or_empty none h = refl
or_none-or_empty (some s) h = rw (eq_of_ne s "" (λ e. h (ap some e))) refl

-- If json.loads undoes json.dumps, and neither the idempotency key nor the traceparent is an empty
-- text, then reading back what an envelope became in a stream gives that envelope.
pub from_stream_dict-to_stream_dict :
    {P : Type 0} (dumps : P → String) (loads : String → Result P)
    → ((p : P) → loads (dumps p) ≡ ok p)
    → (event_id occurred_at correlation_id : String) (e : EventEnvelope P)
    → e.idempotency_key ≢ some ""
    → e.traceparent ≢ some ""
    → from_stream_dict loads event_id occurred_at correlation_id (to_stream_dict dumps e) ≡ ok e
unfolding from_stream_dict to_stream_dict lookup
from_stream_dict-to_stream_dict dumps loads inverse event_id occurred_at correlation_id e h k =
    rw
      (
        inverse,
        event_type_of-value,
        or_none-or_empty e.idempotency_key h,
        or_none-or_empty e.traceparent k,
      )
      refl
