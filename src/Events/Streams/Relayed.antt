-- ===== src/Events/Streams/Relayed.antt =====
-- core/outbox.py and core/streams.py together: an event on its way from a row of the outbox through
-- Redis to the handler of a consumer.
use delivery_time_prediction.Prelude.{
  ℕ, String, Bool, true, ◌≡◌, ◌≢◌, refl, ap, ◌∙◌, some, List, [], ◌∷◌, ◌++◌, arith,
}
use delivery_time_prediction.Core.Result.{Result, ok}
use delivery_time_prediction.Core.Outbox.{OutboxEvent, published, relay_entry}
use delivery_time_prediction.Core.Outbox.Sync.{sync_stream_broker, relay_entry-sync}
use delivery_time_prediction.Events.{EventEnvelope, to_stream_dict, from_stream_dict}
use delivery_time_prediction.Events.RoundTrip.{from_stream_dict-to_stream_dict}
use delivery_time_prediction.Events.Streams.{Redis, Texts, Message, handle, process}
use delivery_time_prediction.Events.Streams.Acked.{
  Entry, added, handled, acked, recorded, recorded_handler, IsAvailable,
}

module _ {P J W : Type 0} (texts : Texts P) (dumps str : J → String) (redis : Redis W)
    (handler : EventEnvelope P → W → Result (Unit {0}) × W) (clock : List (Entry P) × W → ℕ)
    (group_name dlq_name : String) where
  -- The relay sends one row, and then a consumer gets a message with the fields of that row.
  abbrev pub sent : OutboxEvent → List (Entry P) × W → Bool × OutboxEvent × (List (Entry P) × W)
  sent row s = relay_entry (sync_stream_broker dumps str (recorded redis).xadd clock) row s

  abbrev pub consumed_message :
      OutboxEvent → Message → List (Entry P) × W → Result (Unit {0}) × (List (Entry P) × W)
  consumed_message row m s =
      process (recorded redis) texts (recorded_handler handler) row.stream_name group_name dlq_name
        m s

  -- While Redis answers, json.loads undoes json.dumps and the handler returns for this event: a row
  -- of the outbox that holds the event is marked published, and the consumer that gets a message with
  -- the fields of that row calls the handler with the same event and acknowledges the message. The
  -- idempotency key and the traceparent of the event are not empty texts.
  pub relay_entry-process :
      (available : IsAvailable redis)
      → ((p : P) → texts.loads (texts.dumps p) ≡ ok p)
      → (env : EventEnvelope P) → env.idempotency_key ≢ some ""
      → env.traceparent ≢ some ""
      → ((w : W) → (w' : W) × (handler env w ≡ (ok tt, w')))
      → (row : OutboxEvent) → row.payload ≡ to_stream_dict texts.dumps env
      → (m : Message) → m.raw_fields ≡ row.payload
      → (es : List (Entry P)) → (w : W)
      → ((sent row (es, w)).0 ≡ true)
        × ((sent row (es, w)).1.status ≡ published)
        × (w' : W) × (consumed_message row m (sent row (es, w)).2 ≡ (
          ok tt,
          (
            ((es ++ added row.stream_name row.payload ∷ []) ++ handled env ∷ [])
                ++ acked row.stream_name group_name m.msg_id ∷ [],
            w',
          ),
        ))
  unfolding process handle
  relay_entry-process available inverse env key trace returns row p m f es w =
      let (i, w1, h1) = available.0 row.stream_name row.payload w in
      let (w2, h2) = returns w1 in
      let (w3, h3) = available.1 row.stream_name group_name m.msg_id w2 in
      let d = texts.defaults m.msg_id in
      let read =
        ap (from_stream_dict texts.loads d.event_id d.occurred_at d.correlation_id) (f ∙ p)
        ∙ from_stream_dict-to_stream_dict texts.dumps texts.loads inverse d.event_id d.occurred_at
            d.correlation_id env key trace in
      let s =
        relay_entry-sync dumps str (recorded redis).xadd clock row (es, w)
          (es ++ added row.stream_name row.payload ∷ [], w1) i (ground (arith, h1)) in
      rw s (refl, refl, w3, ground (arith, read, h2, h3))
