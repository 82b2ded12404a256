-- ===== src/Core/Outbox.antt =====
-- core/outbox.py: the transactional outbox. Rows stand in the order of their primary keys; a JSON
-- text column is the value that it holds. The stream broker is given from outside: any function on
-- a world `W`, which may raise.
pub mod Relay
pub mod Sync
mod Tests
use delivery_time_prediction.Prelude.{
  ℕ, zero, suc, ◌+◌, String, Bool, true, false, ◌||◌, Option, none, some, List, [], ◌∷◌, ◌++◌, ◌==◌,
  any, if◌then◌else◌, leb,
}
use delivery_time_prediction.Core.Result.{Result, ok, err, integrity_error}
use delivery_time_prediction.Core.Session.{Session}

pub data OutboxStatus : Type 0 where
  pending published failed : OutboxStatus

-- A dict from text to text, in the order of insertion.
abbrev pub StreamDict : Type 0
StreamDict = List (String × String)

pub record OutboxEvent : Type 0 where
  pub event_id : String
  pub event_type : String
  pub stream_name : String
  pub payload : StreamDict
  pub status : OutboxStatus
  pub retry_count : ℕ
  pub created_at : ℕ
  pub published_at : Option ℕ

-- `event_id or str(uuid.uuid4())`
abbrev event_id_or : Option String → String → String
event_id_or none drawn = drawn
event_id_or (some i) drawn = if i == "" then drawn else i

abbrev pub outbox_event : String → String → StreamDict → Option String → String → ℕ → OutboxEvent
outbox_event event_type stream_name payload event_id drawn now = record {
  event_id = event_id_or event_id drawn;
  event_type = event_type;
  stream_name = stream_name;
  payload = payload;
  status = pending;
  retry_count = 0;
  created_at = now;
  published_at = none;
}

-- The UNIQUE column of `outbox_events`.
abbrev pub has_event_id : String → OutboxEvent → Bool
has_event_id i e = e.event_id == i

-- `session.add(entry)`, with the flush at the commit.
unfoldable pub write_outbox_event : OutboxEvent → Session (List OutboxEvent) (Unit {0})
write_outbox_event e rows =
    if any (has_event_id e.event_id) rows
    then (err integrity_error, rows)
    else (ok tt, rows ++ e ∷ [])

abbrev pub max_retries : ℕ
max_retries = 5

-- What `OutboxRelay` publishes with: `stream_broker.publish_sync`, and the clock.
pub record StreamBroker (W : Type 0) : Type 0 where
  pub publish_sync : String → StreamDict → W → Result (Unit {0}) × W
  pub clock : W → ℕ

abbrev after_failure : OutboxEvent → OutboxEvent
after_failure e = record e {
  retry_count = suc e.retry_count;
  status = if leb max_retries (suc e.retry_count) then failed else e.status;
}

abbrev pub after_success : ℕ → OutboxEvent → OutboxEvent
after_success now e = record e { status = published; published_at = some now }

module _ {W : Type 0} (broker : StreamBroker W) where
  open broker use {publish_sync, clock}

  -- The body of the loop: whether the event was published, and its row.
  pub relay_entry : OutboxEvent → W → Bool × OutboxEvent × W
  relay_entry e w =
      let (r, w') = publish_sync e.stream_name e.payload w in
      elim r [
        | ok _ ↦ (true, after_success (clock w') e, w')
        | err _ ↦ (false, after_failure e, w')
      ]

  -- The loop over the first `n` pending rows: how many were published, all the rows, the world.
  pub relay_rows : ℕ → List OutboxEvent → W → ℕ × List OutboxEvent × W
  relay_rows zero rows w = (0, rows, w)
  relay_rows (suc n) [] w = (0, [], w)
  relay_rows (suc n) (e ∷ rows) w = elim e.status [
    | pending ↦
        let (sent, e', w') = relay_entry e w in
        let (k, rows', w'') = relay_rows n rows w' in (if sent then suc k else k, e' ∷ rows', w'')
    | _ ↦ let (k, rows', w') = relay_rows (suc n) rows w in (k, e ∷ rows', w')
  ]

  -- `relay_batch`; `commits` says whether `session.commit()` succeeds. What was published stays
  -- published, and is counted, also when it does not.
  pub relay_batch : ℕ → Bool → List OutboxEvent → W → ℕ × List OutboxEvent × W
  relay_batch batch_size commits rows w =
      let (k, rows', w') = relay_rows batch_size rows w in (k, if commits then rows' else rows, w')
