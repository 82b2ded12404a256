-- ===== src/Events/Streams/Tests.antt =====
-- core/streams.py with a Redis that only numbers the entries, a message that holds an event and one
-- that holds an unknown type.
use delivery_time_prediction.Prelude.{
  ℕ, suc, String, true, ◌≡◌, ◌≢◌, refl, none, some, List, [], ◌∷◌, concat,
}
use delivery_time_prediction.Prelude.Dict.{lookup}
use delivery_time_prediction.Core.Result.{Result, Exception, ok, err, connection_error}
use delivery_time_prediction.Core.Outbox.{OutboxEvent, outbox_event, published}
use delivery_time_prediction.Events.{
  EventEnvelope, order_created, from_stream_dict, to_stream_dict, event_type_of, value,
}
use delivery_time_prediction.Events.Streams.{
  Redis, Texts, Message, process_all, create_consumer_group, consume_loop, dlq_or_default,
  consume_rounds, consume_round, process_streams, process, handle, send_to_dlq,
}
use delivery_time_prediction.Events.Streams.Relayed.{sent, consumed_message, relay_entry-process}
use delivery_time_prediction.Events.Streams.Acked.{
  Entry, added, handled, acked, recorded, recorded_handler, IsAvailable, Settles,
  process_all-Settles,
}

abbrev busy : Exception
busy = connection_error "BUSYGROUP"

abbrev poison : Message
poison = record { msg_id = "2-0"; raw_fields = ("event_type", "Unknown") ∷ [] }

abbrev created : Message
created = record { msg_id = "1-0"; raw_fields = ("event_type", "order.created") ∷ [] }

abbrev redis : Redis ℕ
redis = record {
  xadd = λ s d n. (ok "9-0", suc n);
  xgroup_create = λ s g n. (err busy, n);
  xreadgroup = λ g c k n. (ok (("orders", created ∷ poison ∷ []) ∷ []), n);
  xack = λ s g i n. (ok tt, n);
}

abbrev texts : Texts String
texts = record {
  str = λ e. "error";
  is_busy = λ e. true;
  dumps = λ p. p;
  dumps_dict = λ d. "{}";
  loads = λ s. ok s;
  defaults = λ i. record { event_id = i; occurred_at = "now"; correlation_id = i };
}

abbrev handler : EventEnvelope String → ℕ → Result (Unit {0}) × ℕ
handler envelope n = (ok tt, n)

redis-IsAvailable : IsAvailable redis
redis-IsAvailable = (λ s d n. ("9-0", suc n, refl), λ s g i n. (n, refl))

process_all-Settles_example :
    (new : List (Entry String)) × (n : ℕ) × (process_all
        (recorded redis)
        texts
        (recorded_handler handler)
        "orders"
        "eta"
        "dlq:orders"
        (created ∷ poison ∷ [])
        ([], 0)
      ≡ (ok tt, (new, n)))
    × Settles texts "orders" "eta" "dlq:orders" (created ∷ poison ∷ []) new
process_all-Settles_example =
    process_all-Settles texts "orders" "eta" "dlq:orders" redis handler redis-IsAvailable
      (created ∷ poison ∷ []) [] 0

busy_group : create_consumer_group redis texts "orders" "eta" 0 ≡ (ok tt, 0)
unfolding create_consumer_group
busy_group = refl

no_dlq : dlq_or_default none "orders" ≡ "dlq:orders"
unfolding concat
no_dlq = refl

-- Two rounds, each of which sends the unknown event to the dead letters.
two_rounds : consume_loop redis texts handler "orders" "eta" "worker" none 10 2 0 ≡ (ok tt, 2)
unfolding consume_loop create_consumer_group consume_rounds consume_round process_streams
    process_all process handle from_stream_dict event_type_of lookup value send_to_dlq
two_rounds = refl

abbrev event : EventEnvelope String
event = record {
  event_id = "e1";
  event_type = order_created;
  event_version = "1.0.0";
  occurred_at = "2026-01-01";
  correlation_id = "o1";
  idempotency_key = none;
  traceparent = none;
  payload = "{}";
}

abbrev row : OutboxEvent
row = outbox_event "order.created" "order.created" (to_stream_dict texts.dumps event) none "e1" 7

no_text : event.traceparent ≢ some ""
no_text e = cc

relay_entry-process_example :
    ((sent texts texts.dumps texts.dumps redis handler (λ s. 8) "eta" "dlq" row ([], 0)).0 ≡ true)
    × ((sent texts texts.dumps texts.dumps redis handler (λ s. 8) "eta" "dlq" row ([], 0)).1.status
        ≡ published)
    × (n : ℕ) × (consumed_message texts texts.dumps texts.dumps redis handler
          (λ s. 8)
          "eta"
          "dlq"
          row
          (record { msg_id = "9-0"; raw_fields = row.payload })
          (sent texts texts.dumps texts.dumps redis handler (λ s. 8) "eta" "dlq" row ([], 0)).2
        ≡ (
          ok tt,
          (
            added "order.created" row.payload
                ∷ handled event
                ∷ acked "order.created" "eta" "9-0"
                ∷ [],
            n,
          ),
        ))
relay_entry-process_example =
    relay_entry-process texts texts.dumps texts.dumps redis handler (λ s. 8) "eta" "dlq"
      redis-IsAvailable (λ p. refl) event no_text no_text (λ n. (n, refl)) row refl
      (record { msg_id = "9-0"; raw_fields = row.payload }) refl [] 0
