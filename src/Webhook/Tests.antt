-- ===== src/Webhook/Tests.antt =====
-- services/webhook/app.py with a subscription of each of two tenants, and one that is not active;
-- merchants whose address ends the program's patience do not answer.
use delivery_time_prediction.Prelude.{
  ℕ, nat_eq, String, ◌≡◌, refl, none, some, List, [], ◌∷◌, ◌++◌, ◌==◌, if◌then◌else◌, length, map,
}
use delivery_time_prediction.Prelude.Float.{float}
use delivery_time_prediction.Core.Result.{ok, err, integrity_error}
use delivery_time_prediction.Core.Session.{get_session}
use delivery_time_prediction.Core.DateTime.{naive}
use delivery_time_prediction.Order.{AuthContext, merchant}
use delivery_time_prediction.Webhook.{
  WebhookSubscription, WebhookDelivery, WebhookDb, DispatchRequest, Post, Outcome, answers,
  times_out, DeliveryDraw, dispatch_event, dispatch_loop, add_deliveries, deliver_webhook,
}
use delivery_time_prediction.Webhook.Dispatch.{
  Pairwise, recorded, IsSent, IsLogged, Exchange, IsOutcome, unclashed, subscribers,
  dispatch_event-Delivers,
}
use delivery_time_prediction.Webhook.Reached.{Reached, list_deliveries-Reached}
use delivery_time_prediction.Webhook.Subscriptions.{WebhookDeliveryResponse, list_deliveries}

abbrev sub_of : String → String → ℕ → WebhookSubscription
sub_of id tenant_id is_active = record {
  id = id;
  tenant_id = tenant_id;
  url = id;
  event_types = "order.created" ∷ "order.confirmed" ∷ [];
  secret = "secret";
  description = none;
  is_active = is_active;
  created_at = 1;
}

abbrev db : WebhookDb
db = record {
  subscriptions =
      sub_of "s1" "t1" 1 ∷ sub_of "s2" "t2" 1 ∷ sub_of "s3" "t1" 0 ∷ sub_of "s4" "t1" 1 ∷ [];
  deliveries = [];
}

abbrev request : DispatchRequest String
request = record {
  event_id = "e1";
  event_type = "order.confirmed";
  tenant_id = "t1";
  payload = "{}";
}

abbrev dumps : String → String
dumps p = p

abbrev hexdigest : String → String → String
hexdigest secret payload = secret

abbrev http_post : Post → Unit {0} → Outcome × Unit {0}
http_post p w = (if p.url == "s4" then times_out else answers 204 (float 3), w)

abbrev draws : ℕ → DeliveryDraw
draws n = record { id = if nat_eq n 0 then "d0" else "d1"; sent_at = 7; failed_at = 8; now = 9 }

abbrev DeliversAll : Type 0
DeliversAll =
    let (answer, (posts', w')) =
      dispatch_event dumps hexdigest (recorded http_post) draws request db ([], tt) in
    (rows : List WebhookDelivery) × (new : List Exchange) × (posts' ≡ [] ++ new)
    × Pairwise (IsSent hexdigest "{}") (subscribers dumps hexdigest http_post draws request db) new
    × Pairwise (IsLogged dumps request) (subscribers dumps hexdigest http_post draws request db)
        rows
    × Pairwise IsOutcome new rows
    × (answer ≡ (
        if unclashed rows []
        then (
          ok (length (subscribers dumps hexdigest http_post draws request db)),
          record db { deliveries = rows },
        )
        else (err integrity_error, db)))

dispatch_event-Delivers_example : DeliversAll
dispatch_event-Delivers_example =
    dispatch_event-Delivers dumps hexdigest http_post draws request db [] tt

logged :
    map {B = String × String}
      (λ d. (d.url, d.status))
      (dispatch_event dumps hexdigest http_post draws request db tt).0.1.deliveries
    ≡ ("s1", "SUCCESS") ∷ ("s4", "RETRYING") ∷ []
unfolding dispatch_event dispatch_loop add_deliveries deliver_webhook get_session
logged = refl

abbrev shop : AuthContext
shop = record { user_id = "shop"; role = merchant; tenant_id = some "t1" }

abbrev DeliveriesShown : WebhookDb → Type 0
DeliveriesShown rows =
    (shown : List (WebhookDeliveryResponse String)) × (list_deliveries naive (λ t. "today") dumps
        (λ ds. ds) 50 shop rows
      ≡ (ok shown, rows))

list_deliveries-Reached_example :
    DeliveriesShown
      (dispatch_event dumps hexdigest http_post draws request
        (record { subscriptions = []; deliveries = [] })
        tt).0.1
list_deliveries-Reached_example =
    list_deliveries-Reached dumps hexdigest http_post naive (λ t. "today") dumps (λ ds. ds)
      (λ rows h. h) 50 shop _ (Reached.dispatch draws request tt Reached.empty)
