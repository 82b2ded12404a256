-- ===== src/Events/Streams/Acked.antt =====
-- core/streams.py: what the consumer does with the messages of a stream while Redis answers.
use delivery_time_prediction.Prelude.{String, ◌≡◌, refl, ap, sym, ◌∙◌, List, [], ◌∷◌, ◌++◌, arith}
use mathlib.Core.List.{append-nil, append_assoc}
use delivery_time_prediction.Core.Result.{Exception, Result, ok, err}
use delivery_time_prediction.Core.Session.{step_ok}
use delivery_time_prediction.Core.Outbox.{StreamDict}
use delivery_time_prediction.Events.{EventEnvelope, from_stream_dict}
use delivery_time_prediction.Events.Streams.{
  Redis, Texts, Message, handle, process, process_all, send_to_dlq,
}

-- What happens to the messages: a handler returns, an entry is added, a message is acknowledged.
pub data Entry (P : Type 0) : Type 0 where
  handled : EventEnvelope P → Entry P
  added : String → StreamDict → Entry P
  acked : String → String → String → Entry P

-- Redis and a handler that note it.
abbrev pub recorded : {P W : Type 0} → Redis W → Redis (List (Entry P) × W)
recorded redis = record {
  xadd = λ s d (es, w).
      let (r, w') = redis.xadd s d w in
      elim r [ ok i ↦ (ok i, (es ++ added s d ∷ [], w')) | err e ↦ (err e, (es, w')) ];
  xgroup_create = λ s g (es, w). let (r, w') = redis.xgroup_create s g w in (r, (es, w'));
  xreadgroup = λ g c n (es, w). let (r, w') = redis.xreadgroup g c n w in (r, (es, w'));
  xack = λ s g i (es, w).
      let (r, w') = redis.xack s g i w in
      elim r [ ok _ ↦ (ok tt, (es ++ acked s g i ∷ [], w')) | err e ↦ (err e, (es, w')) ];
}

abbrev pub recorded_handler :
    {P W : Type 0}
    → (EventEnvelope P → W → Result (Unit {0}) × W)
    → EventEnvelope P
    → List (Entry P) × W
    → Result (Unit {0}) × (List (Entry P) × W)
recorded_handler handler env (es, w) =
    let (r, w') = handler env w in
    elim r [ ok _ ↦ (ok tt, (es ++ handled env ∷ [], w')) | err e ↦ (err e, (es, w')) ]

-- Redis answers each `xadd` and each `xack`.
abbrev pub IsAvailable : {W : Type 0} → Redis W → Type 0
IsAvailable {W} redis =
    ((s : String) (d : StreamDict) (w : W)
      → (i : String) × (w' : W) × (redis.xadd s d w ≡ (ok i, w')))
    × ((s g i : String) (w : W) → (w' : W) × (redis.xack s g i w ≡ (ok tt, w')))

module _ {P : Type 0} (texts : Texts P) (stream_name group_name dlq_name : String) where
  abbrev read : Message → Result (EventEnvelope P)
  read m =
      let d = texts.defaults m.msg_id in
      from_stream_dict texts.loads d.event_id d.occurred_at d.correlation_id m.raw_fields

  abbrev dead_letter : Message → String → Entry P
  dead_letter m reason =
      added dlq_name
        (("error_reason", reason) ∷ ("original_message", texts.dumps_dict m.raw_fields) ∷ [])

  -- Each message in its order: handled as the envelope it holds or kept in the dead letters, and
  -- acknowledged after that, once.
  pub data Settles : List Message → List (Entry P) → Type 0 where
    nothing : Settles [] []
    consumed :
        {m : Message} {ms : List Message} {env : EventEnvelope P} {es : List (Entry P)}
        → read m ≡ ok env
        → Settles ms es
        → Settles (m ∷ ms) (handled env ∷ acked stream_name group_name m.msg_id ∷ es)
    dead_lettered :
        {m : Message} {ms : List Message} {reason : String} {es : List (Entry P)}
        → Settles ms es
        → Settles (m ∷ ms) (dead_letter m reason ∷ acked stream_name group_name m.msg_id ∷ es)

  module _ {W : Type 0} (redis : Redis W) (handler : EventEnvelope P → W → Result (Unit {0}) × W)
      (available : IsAvailable redis) where
    abbrev run : List Message → List (Entry P) × W → Result (Unit {0}) × (List (Entry P) × W)
    run =
        process_all (recorded redis) texts (recorded_handler handler) stream_name group_name
          dlq_name

    abbrev one : Message → List (Entry P) × W → Result (Unit {0}) × (List (Entry P) × W)
    one = process (recorded redis) texts (recorded_handler handler) stream_name group_name dlq_name

    -- The outcome of one message.
    abbrev Handles : Message → List (Entry P) → W → Type 0
    Handles m es w =
        (e : Entry P) × (w' : W) × (one m (es, w)
          ≡ (ok tt, ((es ++ e ∷ []) ++ acked stream_name group_name m.msg_id ∷ [], w')))
        × ((ms : List Message) (es' : List (Entry P))
            → Settles ms es'
            → Settles (m ∷ ms) (e ∷ acked stream_name group_name m.msg_id ∷ es'))

    to_dlq :
        (m : Message) (es : List (Entry P)) (w w1 : W) (e : Exception)
        → handle
            (recorded redis)
            texts
            (recorded_handler handler)
            stream_name
            group_name
            dlq_name
            m
            (es, w)
          ≡ (err e, (es, w1))
        → Handles m es w
    unfolding process send_to_dlq
    to_dlq m es w w1 e h =
        let d =
          ("error_reason", texts.str e)
          ∷ ("original_message", texts.dumps_dict m.raw_fields)
          ∷ [] in
        let (i, w2, h2) = available.0 dlq_name d w1 in
        let (w3, h3) = available.1 stream_name group_name m.msg_id w2 in
        (dead_letter m (texts.str e), w3, ground arith, λ ms es' s. dead_lettered s)

    one_lem : (m : Message) (es : List (Entry P)) (w : W) → Handles m es w
    unfolding process handle
    one_lem m es w = on_read (read m) refl
      where
        on_read : (r : Result (EventEnvelope P)) → read m ≡ r → Handles m es w
        on_read (err e) h = to_dlq m es w w e (ground arith)
        on_read (ok env) h = on_handler (handler env w) refl
          where
            on_handler : (r : Result (Unit {0}) × W) → handler env w ≡ r → Handles m es w
            on_handler (err e, w1) h' = to_dlq m es w w1 e (ground arith)
            on_handler (ok _, w1) h' =
                let (w2, h2) = available.1 stream_name group_name m.msg_id w1 in
                (handled env, w2, ground arith, λ ms es' s. consumed h s)

    -- While Redis answers, the loop over the messages of a stream goes through all of them without an
    -- exception, whatever the handler raises and whatever the messages hold. Each message, in its
    -- order, is either handled as the envelope it holds or kept in the dead letters with its fields,
    -- and it is acknowledged once, after that.
    pub process_all-Settles :
        (ms : List Message) (es : List (Entry P)) (w : W)
        → (new : List (Entry P)) × (w' : W) × (run ms (es, w) ≡ (ok tt, (es ++ new, w')))
          × Settles ms new
    unfolding process_all
    process_all-Settles [] es w = ([], w, ap (λ l. (ok tt, (l, w))) (sym (append-nil es)), nothing)
    process_all-Settles (m ∷ ms) es w =
        let (e, w1, h, settles) = one_lem m es w in
        let a = acked stream_name group_name m.msg_id in
        let (new, w', h', rest) = process_all-Settles ms ((es ++ e ∷ []) ++ a ∷ []) w1 in
        let joined =
          append_assoc (es ++ e ∷ []) (a ∷ []) new ∙ append_assoc es (e ∷ []) (a ∷ new) in
        (
          e ∷ a ∷ new,
          w',
          step_ok (one m) (λ _. run ms) (es, w) ((es ++ e ∷ []) ++ a ∷ [], w1) tt h
              ∙ h'
              ∙ ap (λ l. (ok tt, (l, w'))) joined,
          settles ms new rest,
        )
