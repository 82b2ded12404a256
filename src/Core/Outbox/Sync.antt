-- ===== src/Core/Outbox/Sync.antt =====
-- core/outbox.py: `SyncStreamBroker`, over the `xadd` of Redis.
use delivery_time_prediction.Prelude.{ℕ, String, true, List, [], ◌∷◌, ◌≡◌, ap, ◌∙◌, arith, refl}
use delivery_time_prediction.Core.Result.{Result, ok, err}
use delivery_time_prediction.Core.Outbox.{
  StreamDict, StreamBroker, OutboxEvent, relay_entry, after_success,
}

-- A value of the dict: a text, a dict or list, or a number, a Boolean or None.
pub data Value (J : Type 0) : Type 0 where
  text : String → Value J
  nested : J → Value J
  scalar : J → Value J

-- `dumps` is json.dumps and `str` is Python's `str`, which keeps a text.
module _ {J : Type 0} (dumps str : J → String) where
  abbrev pub flat_value : Value J → String
  flat_value (text s) = s
  flat_value (nested v) = dumps v
  flat_value (scalar v) = str v

  unfoldable pub flatten : List (String × Value J) → StreamDict
  flatten [] = []
  flatten ((k, v) ∷ data') = (k, flat_value v) ∷ flatten data'

  unfoldable pub publish_sync :
      {W : Type 0}
      → (String → StreamDict → W → Result String × W)
      → String
      → List (String × Value J)
      → W
      → Result String × W
  publish_sync xadd stream_name data' w = xadd stream_name (flatten data') w

  abbrev pub texts : StreamDict → List (String × Value J)
  texts [] = []
  texts ((k, s) ∷ d) = (k, text s) ∷ texts d

  -- The broker of the relay, whose payloads hold texts only. The relay drops the identifier.
  abbrev pub sync_stream_broker :
      {W : Type 0} → (String → StreamDict → W → Result String × W) → (W → ℕ) → StreamBroker W
  sync_stream_broker xadd clock = record {
    publish_sync = λ stream_name payload w.
        let (r, w') = publish_sync xadd stream_name (texts payload) w in
        elim r [ ok _ ↦ (ok tt, w') | err e ↦ (err e, w') ];
    clock = clock;
  }

  -- A dict of texts goes to Redis as it is.
  pub flatten-texts : (d : StreamDict) → flatten (texts d) ≡ d
  unfolding flatten
  flatten-texts [] = refl
  flatten-texts ((k, s) ∷ d) = ap (λ d'. (k, s) ∷ d') (flatten-texts d)

  -- While Redis takes the entry, the relay sends the payload of a row as it is, and marks the row.
  pub relay_entry-sync :
      {W : Type 0} (xadd : String → StreamDict → W → Result String × W) (clock : W → ℕ)
      (e : OutboxEvent) (w w' : W) (i : String)
      → xadd e.stream_name e.payload w ≡ (ok i, w')
      → relay_entry (sync_stream_broker xadd clock) e w ≡ (true, after_success (clock w') e, w')
  unfolding relay_entry publish_sync
  relay_entry-sync xadd clock e w w' i h =
      let h' = ap (λ d. xadd e.stream_name d w) (flatten-texts e.payload) ∙ h in ground (arith, h')
