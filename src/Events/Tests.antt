-- ===== src/Events/Tests.antt =====
-- contracts/events.py with payloads that are texts already.
use delivery_time_prediction.Prelude.{String, ◌≡◌, ◌≢◌, refl, ap, false≢true, none, some, eq_iff}
use delivery_time_prediction.Core.Result.{Result, ok}
use delivery_time_prediction.Events.{
  EventEnvelope, order_created, to_stream_dict, from_stream_dict, or_empty,
}
use delivery_time_prediction.Events.RoundTrip.{from_stream_dict-to_stream_dict}

abbrev dumps : String → String
dumps s = s

abbrev loads : String → Result String
loads s = ok s

abbrev event : EventEnvelope String
event = record {
  event_id = "e1";
  event_type = order_created;
  event_version = "1.0.0";
  occurred_at = "2026-01-01";
  correlation_id = "o1";
  idempotency_key = some "k1";
  traceparent = none;
  payload = "{}";
}

key_not_empty : event.idempotency_key ≢ some ""
key_not_empty e = false≢true ((eq_iff "k1" "").1 (ap or_empty e))

no_trace : event.traceparent ≢ some ""
no_trace e = cc

from_stream_dict-to_stream_dict_example :
    from_stream_dict loads "e9" "now" "c9" (to_stream_dict dumps event) ≡ ok event
from_stream_dict-to_stream_dict_example =
    from_stream_dict-to_stream_dict dumps loads (λ p. refl) "e9" "now" "c9" event key_not_empty
      no_trace
