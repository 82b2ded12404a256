-- ===== src/Webhook/Subscriptions.antt =====
-- services/webhook/app.py: the subscriptions and the delivery log of one tenant.
use delivery_time_prediction.Prelude.{
  ℕ, String, Bool, ◌==◌, not, Option, none, some, List, [], ◌∷◌, ◌++◌, any, select, take, map,
  nat_eq, if◌then◌else◌,
}
use delivery_time_prediction.Prelude.Float.{Float}
use delivery_time_prediction.Core.Result.{Result, ok, err, integrity_error, value_error}
use delivery_time_prediction.Core.Session.{Session, get_session, pure, lift, query, ◌>>◌}
use delivery_time_prediction.Core.DateTime.{DateTime, aware}
use delivery_time_prediction.Core.Security.{non_empty, generate_api_key_pair}
use delivery_time_prediction.Order.{AuthContext}
use delivery_time_prediction.Webhook.{
  WebhookStatus, pending, success, failed, retrying, WebhookSubscription, WebhookDelivery,
  WebhookDb,
}

pub record WebhookSubscriptionCreate : Type 0 where
  pub url : String
  pub event_types : List String
  pub description : Option String

pub record WebhookSubscriptionResponse : Type 0 where
  pub id : String
  pub tenant_id : String
  pub url : String
  pub event_types : List String
  pub secret : String
  pub is_active : Bool
  pub created_at : String

pub record WebhookDeliveryResponse (P : Type 0) : Type 0 where
  pub id : String
  pub tenant_id : String
  pub subscription_id : String
  pub event_id : String
  pub event_type : String
  pub url : String
  pub payload : P
  pub status_code : Option ℕ
  pub attempt_count : ℕ
  pub response_time_ms : Option Float
  pub next_retry_at : Option String
  pub status : WebhookStatus
  pub error_message : Option String
  pub created_at : String

-- What uuid4, `secrets` and the clock give to one call.
pub record SubscriptionDraw : Type 0 where
  pub id : String
  pub hex : String
  pub urlsafe : String
  pub now : ℕ

-- `auth.tenant_id or auth.user_id`
abbrev pub owner : AuthContext → String
owner auth = elim (non_empty auth.tenant_id) [ none ↦ auth.user_id | some t ↦ t ]

abbrev pub new_subscription :
    WebhookSubscriptionCreate → AuthContext → SubscriptionDraw → WebhookSubscription
new_subscription request auth draw = record {
  id = draw.id;
  tenant_id = owner auth;
  url = request.url;
  event_types = request.event_types;
  secret = (generate_api_key_pair draw.hex draw.urlsafe).1;
  description = request.description;
  is_active = 1;
  created_at = draw.now;
}

-- `session.add(sub)` and `session.flush()`
unfoldable pub add_subscription : WebhookSubscription → Session WebhookDb (Unit {0})
add_subscription s db =
    if any (λ old. old.id == s.id) db.subscriptions
    then (err integrity_error, db)
    else (ok tt, record db { subscriptions = db.subscriptions ++ s ∷ [] })

-- `WebhookSubscriptionResponse(...)` of a row, with the secret that is shown.
abbrev pub subscription_response :
    String → String → WebhookSubscription → WebhookSubscriptionResponse
subscription_response secret created_at s = record {
  id = s.id;
  tenant_id = s.tenant_id;
  url = s.url;
  event_types = s.event_types;
  secret = secret;
  is_active = not (nat_eq s.is_active 0);
  created_at = created_at;
}

abbrev pub owned_by : String → WebhookSubscription → Bool
owned_by tid s = s.tenant_id == tid

-- `WebhookStatus(s)`
unfoldable pub status_of : String → Result WebhookStatus
status_of s =
    if s == "PENDING"
    then ok pending
    else if s == "SUCCESS"
    then ok success
    else if s == "FAILED"
    then ok failed
    else if s == "RETRYING"
    then ok retrying
    else err value_error

-- `[f(x) for x in xs]`, where `f` may raise.
unfoldable pub traverse : {A B : Type 0} → (A → Result B) → List A → Result (List B)
traverse f [] = ok []
traverse f (x ∷ xs) = elim (f x) [
  | err e ↦ err e
  | ok y ↦ elim (traverse f xs) [ err e ↦ err e | ok ys ↦ ok (y ∷ ys) ]
]

-- `fetch` is what a DateTime column gives back, `isoformat` the method of datetime, `order_by` the
-- order by the time of creation, the latest first.
module _ (fetch : ℕ → DateTime) (isoformat : DateTime → String) where
  -- POST /webhooks/subscriptions
  unfoldable pub create_subscription :
      WebhookSubscriptionCreate
      → SubscriptionDraw
      → AuthContext
      → WebhookDb
      → Result WebhookSubscriptionResponse × WebhookDb
  create_subscription request draw auth =
      let sub = new_subscription request auth draw in
      get_session (
        add_subscription sub
        >> pure (subscription_response sub.secret (isoformat (aware draw.now)) sub))

  -- GET /webhooks/subscriptions
  pub list_subscriptions :
      (List WebhookSubscription → List WebhookSubscription)
      → AuthContext
      → WebhookDb
      → Result (List WebhookSubscriptionResponse) × WebhookDb
  list_subscriptions order_by auth = get_session (
      query λ db.
        map (λ s. subscription_response "••••••••" (isoformat (fetch s.created_at)) s)
          (order_by (select (owned_by (owner auth)) db.subscriptions)))

  module _ {P : Type 0} (loads : String → P) where
    -- `WebhookDeliveryResponse(...)` of a row, by its status.
    abbrev pub shown : WebhookStatus → WebhookDelivery → WebhookDeliveryResponse P
    shown status d = record {
      id = d.id;
      tenant_id = d.tenant_id;
      subscription_id = d.subscription_id;
      event_id = d.event_id;
      event_type = d.event_type;
      url = d.url;
      payload = loads d.payload;
      status_code = d.status_code;
      attempt_count = d.attempt_count;
      response_time_ms = d.response_time_ms;
      next_retry_at = elim d.next_retry_at [ none ↦ none | some t ↦ some (isoformat (fetch t)) ];
      status = status;
      error_message = d.error_message;
      created_at = isoformat (fetch d.created_at);
    }

    unfoldable pub delivery_response : WebhookDelivery → Result (WebhookDeliveryResponse P)
    delivery_response d = elim (status_of d.status) [
      | err e ↦ err e
      | ok status ↦ ok (shown status d)
    ]

    -- GET /webhooks/deliveries, with a limit that is not negative.
    unfoldable pub list_deliveries :
        (List WebhookDelivery → List WebhookDelivery)
        → ℕ
        → AuthContext
        → WebhookDb
        → Result (List (WebhookDeliveryResponse P)) × WebhookDb
    list_deliveries order_by limit auth = get_session λ db.
        lift
          (traverse delivery_response
            (take limit (order_by (select (λ d. d.tenant_id == owner auth) db.deliveries))))
          db
