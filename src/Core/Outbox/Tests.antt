-- ===== src/Core/Outbox/Tests.antt =====
-- core/outbox.py with a broker that is always down.
use delivery_time_prediction.Prelude.{ℕ, suc, ◌≤◌, All, ◌≡◌, none, some, List, [], ◌∷◌, arith}
use delivery_time_prediction.Core.Result.{err, connection_error}
use delivery_time_prediction.Core.Outbox.{OutboxEvent, StreamBroker, outbox_event}
use delivery_time_prediction.Core.Outbox.Relay.{
  IsSound, attempts_left, count_pending, relay_batches, relay_batches_drain,
}

-- The world is the number of calls.
abbrev down : StreamBroker ℕ
down = record {
  publish_sync = λ stream fields calls. (err (connection_error "redis"), suc calls);
  clock = λ calls. calls;
}

abbrev rows : List OutboxEvent
rows =
    outbox_event "order.created" "order.created" [] (some "e1") "e9" 1
    ∷ outbox_event "order.created" "order.created" [] none "e2" 2
    ∷ []

rows-IsSound : All IsSound rows
unfolding IsSound
rows-IsSound = (omega arith, (omega arith, tt))

ten_left : attempts_left rows ≤ 10
unfolding attempts_left
ten_left = omega arith

relay_batches_drain_example : count_pending (relay_batches down 1 10 rows 0).0 ≡ 0
relay_batches_drain_example = relay_batches_drain down 0 10 rows 0 rows-IsSound ten_left
