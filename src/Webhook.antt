-- ===== src/Webhook.antt =====
-- The webhook service (services/webhook/app.py, services/webhook/models.py, contracts/webhook.py).
-- Identifiers, secrets and readings of the clock are arguments; times are whole seconds. The POST to
-- a merchant is a function on a world `W`, which may answer, time out or raise. json.dumps and
-- json.loads of the list of event types cancel, so the column is the list; of a payload, the column
-- is the text, and `dumps` and `loads` are given from outside.
pub mod Subscriptions
pub mod Dispatch
pub mod Retry
pub mod Reached
mod Tests
use delivery_time_prediction.Prelude.{
  ℕ, ◌+◌, ◌*◌, ◌^◌, ◌-◌, String, Bool, true, false, ◌&&◌, Option, none, some, List, [], ◌∷◌, ◌++◌,
  ◌==◌, any, select, if◌then◌else◌, nat_eq, leb, ltb,
}
use delivery_time_prediction.Prelude.Float.{Float, float}
use delivery_time_prediction.Core.Result.{Result, ok, err, integrity_error}
use delivery_time_prediction.Core.Session.{Session, get_session, pure, ◌>>=◌, ◌>>◌}
use delivery_time_prediction.Core.Security.{compute_hmac_signature}

pub data WebhookStatus : Type 0 where
  pending success failed retrying : WebhookStatus

abbrev pub value : WebhookStatus → String
value pending = "PENDING"
value success = "SUCCESS"
value failed = "FAILED"
value retrying = "RETRYING"

pub record WebhookSubscription : Type 0 where
  pub id : String
  pub tenant_id : String
  pub url : String
  pub event_types : List String
  pub secret : String
  pub description : Option String
  pub is_active : ℕ
  pub created_at : ℕ

pub record WebhookDelivery : Type 0 where
  pub id : String
  pub tenant_id : String
  pub subscription_id : String
  pub event_id : String
  pub event_type : String
  pub url : String
  pub payload : String
  pub status_code : Option ℕ
  pub response_time_ms : Option Float
  pub attempt_count : ℕ
  pub max_attempts : ℕ
  pub next_retry_at : Option ℕ
  pub status : String
  pub error_message : Option String
  pub created_at : ℕ

pub record WebhookDb : Type 0 where
  pub subscriptions : List WebhookSubscription
  pub deliveries : List WebhookDelivery

pub record DispatchRequest (P : Type 0) : Type 0 where
  pub event_id : String
  pub event_type : String
  pub tenant_id : String
  pub payload : P

-- The headers of a delivery that depend on it.
pub record Post : Type 0 where
  pub url : String
  pub content : String
  pub signature : String
  pub timestamp : ℕ

-- What `httpx.post` does: an answer with its status code after a time, a TimeoutException, or another
-- exception with its text.
pub data Outcome : Type 0 where
  answers : ℕ → Float → Outcome
  times_out : Outcome
  raises : String → Outcome

-- What `_deliver_webhook` returns.
pub record Delivered : Type 0 where
  pub is_success : Bool
  pub status_code : ℕ
  pub response_time_ms : Float
  pub error : Option String

-- `round` of the time is taken by the answer.
abbrev pub delivered : Outcome → Delivered
delivered (answers status_code ms) = record {
  is_success = leb 200 status_code && ltb status_code 300;
  status_code = status_code;
  response_time_ms = ms;
  error = none;
}
delivered times_out = record {
  is_success = false;
  status_code = 0;
  response_time_ms = float 10_000;
  error = some "Timeout (10s)";
}
delivered (raises e) = record {
  is_success = false;
  status_code = 0;
  response_time_ms = float 0;
  error = some e;
}

-- A service of the world: it is asked to POST.
abbrev pub Transport : Type 0 → Type 0
Transport W = Post → W → Outcome × W

-- The database as a session sees it, and the world beside it, which no rollback touches.
module _ {W : Type 0} (hexdigest : String → String → String) (http_post : Transport W) where
  -- The request that is sent.
  abbrev pub signed_post : String → String → String → ℕ → Post
  signed_post url payload_bytes secret now = record {
    url = url;
    content = payload_bytes;
    signature = compute_hmac_signature hexdigest secret payload_bytes;
    timestamp = now;
  }

  pub deliver_webhook : String → String → String → ℕ → W → Delivered × W
  deliver_webhook url payload_bytes secret now w =
      let (outcome, w') = http_post (signed_post url payload_bytes secret now) w in
      (delivered outcome, w')

-- What the clock and uuid4 give to one delivery.
pub record DeliveryDraw : Type 0 where
  pub id : String
  pub sent_at : ℕ
  pub failed_at : ℕ
  pub now : ℕ

-- The query of `dispatch_event`, and the test on the event types.
abbrev pub is_subscribed : String → WebhookSubscription → Bool
is_subscribed tenant_id s = s.tenant_id == tenant_id && nat_eq s.is_active 1

abbrev pub has_event_type : String → WebhookSubscription → Bool
has_event_type event_type s = any (λ t. t == event_type) s.event_types

abbrev pub backoff : ℕ
backoff = 2 ^ 0

-- The row that logs an attempt.
abbrev pub delivery_of :
    {P : Type 0}
    → (P → String)
    → DispatchRequest P
    → WebhookSubscription
    → Delivered
    → DeliveryDraw
    → WebhookDelivery
delivery_of dumps request sub result draw = record {
  id = draw.id;
  tenant_id = request.tenant_id;
  subscription_id = sub.id;
  event_id = request.event_id;
  event_type = request.event_type;
  url = sub.url;
  payload = dumps request.payload;
  status_code = some result.status_code;
  response_time_ms = some result.response_time_ms;
  attempt_count = 1;
  max_attempts = 5;
  next_retry_at = if result.is_success then none else some (draw.failed_at + backoff);
  status = if result.is_success then "SUCCESS" else "RETRYING";
  error_message = result.error;
  created_at = draw.now;
}

-- `session.add(delivery)` for each row, with the flush at the commit.
pub add_deliveries : List WebhookDelivery → Session WebhookDb (Unit {0})
add_deliveries [] db = (ok tt, db)
add_deliveries (d ∷ rows) db = elim (any (λ old. old.id == d.id) db.deliveries) [
  | true ↦ (err integrity_error, db)
  | false ↦ add_deliveries rows (record db { deliveries = db.deliveries ++ d ∷ [] })
]

module _ {W P : Type 0} (dumps : P → String) (hexdigest : String → String → String)
    (http_post : Transport W) (draws : ℕ → DeliveryDraw) where
  -- The loop over the subscriptions, from the count `dispatched` on, with the rows that it adds;
  -- `draws` gives to each delivery by its number.
  pub dispatch_loop :
      DispatchRequest P → List WebhookSubscription → ℕ → W → List WebhookDelivery × ℕ × W
  dispatch_loop request [] dispatched w = ([], dispatched, w)
  dispatch_loop request (sub ∷ subs) dispatched w = elim (has_event_type request.event_type sub) [
    | false ↦ dispatch_loop request subs dispatched w
    | true ↦
        let draw = draws dispatched in
        let (result, w1) =
          deliver_webhook hexdigest http_post sub.url (dumps request.payload) sub.secret
            draw.sent_at w in
        let (rows, dispatched', w2) = dispatch_loop request subs (dispatched + 1) w1 in
        (delivery_of dumps request sub result draw ∷ rows, dispatched', w2)
  ]

  -- POST /webhooks/dispatch. A commit that fails takes no request back.
  pub dispatch_event : DispatchRequest P → WebhookDb → W → (Result ℕ × WebhookDb) × W
  dispatch_event request db w =
      let (rows, dispatched, w') =
        dispatch_loop request (select (is_subscribed request.tenant_id) db.subscriptions) 0 w in
      (get_session (add_deliveries rows >> pure dispatched) db, w')
