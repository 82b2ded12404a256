-- ===== src/Events/Streams.antt =====
-- core/streams.py: `RedisStreamBroker`. The commands of Redis are functions on a world `W`, which may
-- raise; the logging and the sleeps change nothing. A loop that is cancelled ends, as one that is
-- stopped does.
pub mod Acked
pub mod Relayed
mod Tests
use delivery_time_prediction.Prelude.{
  ℕ, zero, suc, String, Bool, true, false, not, Option, none, some, List, [], ◌∷◌, if◌then◌else◌,
  ◌==◌, concat,
}
use delivery_time_prediction.Core.Result.{Exception, Result, ok, err}
use delivery_time_prediction.Core.Outbox.{StreamDict}
use delivery_time_prediction.Events.{EventEnvelope, to_stream_dict, from_stream_dict}

-- A message with its identifier.
pub record Message : Type 0 where
  pub msg_id : String
  pub raw_fields : StreamDict

-- xadd, xgroup_create, xreadgroup (the messages by stream) and xack.
pub record Redis (W : Type 0) : Type 0 where
  pub xadd : String → StreamDict → W → Result String × W
  pub xgroup_create : String → String → W → Result (Unit {0}) × W
  pub xreadgroup : String → String → ℕ → W → Result (List (String × List Message)) × W
  pub xack : String → String → String → W → Result (Unit {0}) × W

-- What `from_stream_dict` makes up for a message that lacks it.
pub record Defaults : Type 0 where
  pub event_id : String
  pub occurred_at : String
  pub correlation_id : String

-- The texts and the JSON of Python: `is_busy` is `"BUSYGROUP" in str(e)`.
pub record Texts (P : Type 0) : Type 0 where
  pub str : Exception → String
  pub is_busy : Exception → Bool
  pub dumps : P → String
  pub dumps_dict : StreamDict → String
  pub loads : String → Result P
  pub defaults : String → Defaults

-- `dlq_stream or f"dlq:{stream_name}"`
abbrev pub dlq_or_default : Option String → String → String
dlq_or_default none stream_name = concat ("dlq:" ∷ stream_name ∷ [])
dlq_or_default (some s) stream_name = if s == "" then concat ("dlq:" ∷ stream_name ∷ []) else s

module _ {P W : Type 0} (redis : Redis W) (texts : Texts P) where
  pub publish : String → EventEnvelope P → W → Result String × W
  publish stream_name event w = redis.xadd stream_name (to_stream_dict texts.dumps event) w

  pub create_consumer_group : String → String → W → Result (Unit {0}) × W
  create_consumer_group stream_name group_name w =
      let (r, w') = redis.xgroup_create stream_name group_name w in
      elim r [ ok _ ↦ (ok tt, w') | err e ↦ if texts.is_busy e then (ok tt, w') else (err e, w') ]

  pub send_to_dlq : String → StreamDict → String → W → Result String × W
  send_to_dlq dlq_stream raw_message error_reason w =
      redis.xadd dlq_stream
        (("error_reason", error_reason) ∷ ("original_message", texts.dumps_dict raw_message) ∷ []) w

  module _ (handler : EventEnvelope P → W → Result (Unit {0}) × W)
      (stream_name group_name dlq_name : String) where
    -- The `try` block of a message.
    pub handle : Message → W → Result (Unit {0}) × W
    handle m w =
        let d = texts.defaults m.msg_id in
        elim (from_stream_dict texts.loads d.event_id d.occurred_at d.correlation_id m.raw_fields) [
          | err e ↦ (err e, w)
          | ok envelope ↦
              let (r, w1) = handler envelope w in
              elim r [ err e ↦ (err e, w1) | ok _ ↦ redis.xack stream_name group_name m.msg_id w1 ]
        ]

    -- One message, with what follows an exception.
    pub process : Message → W → Result (Unit {0}) × W
    process m w =
        let (r, w1) = handle m w in
        elim r [
          | ok _ ↦ (ok tt, w1)
          | err e ↦
              let (r', w2) = send_to_dlq dlq_name m.raw_fields (texts.str e) w1 in
              elim r' [
                | err e' ↦ (err e', w2)
                | ok _ ↦ redis.xack stream_name group_name m.msg_id w2
              ]
        ]

    -- The loop over the messages of one stream, which the first exception leaves.
    pub process_all : List Message → W → Result (Unit {0}) × W
    process_all [] w = (ok tt, w)
    process_all (m ∷ ms) w =
        let (r, w1) = process m w in elim r [ err e ↦ (err e, w1) | ok _ ↦ process_all ms w1 ]

    pub process_streams : List (String × List Message) → W → Result (Unit {0}) × W
    process_streams [] w = (ok tt, w)
    process_streams ((_, ms) ∷ rest) w =
        let (r, w1) = process_all ms w in
        elim r [ err e ↦ (err e, w1) | ok _ ↦ process_streams rest w1 ]

    -- One round of the loop: its exceptions are logged only.
    pub consume_round : String → ℕ → W → W
    consume_round consumer_name batch_size w =
        let (r, w1) = redis.xreadgroup group_name consumer_name batch_size w in
        elim r [ err e ↦ w1 | ok messages ↦ (process_streams messages w1).1 ]

    -- The rounds until the loop is stopped.
    pub consume_rounds : ℕ → String → ℕ → W → W
    consume_rounds zero consumer_name batch_size w = w
    consume_rounds (suc n) consumer_name batch_size w =
        consume_rounds n consumer_name batch_size (consume_round consumer_name batch_size w)

  pub consume_loop :
      (EventEnvelope P → W → Result (Unit {0}) × W)
      → String
      → String
      → String
      → Option String
      → ℕ
      → ℕ
      → W
      → Result (Unit {0}) × W
  consume_loop handler stream_name group_name consumer_name dlq_stream batch_size rounds w =
      let (r, w1) = create_consumer_group stream_name group_name w in
      elim r [
        | err e ↦ (err e, w1)
        | ok _ ↦ (
          ok tt,
          consume_rounds handler stream_name group_name (dlq_or_default dlq_stream stream_name)
              rounds consumer_name batch_size w1,
        )
      ]
