-- ===== src/Webhook/Retry.antt =====
-- services/webhook/app.py: the manual redelivery.
use delivery_time_prediction.Prelude.{
  ℕ, ◌+◌, String, Bool, none, some, ◌==◌, find?, modify_first, if◌then◌else◌,
}
use delivery_time_prediction.Core.Result.{Result, http}
use delivery_time_prediction.Core.Session.{get_session, pure, raise, modify, ◌>>◌}
use delivery_time_prediction.Order.{AuthContext}
use delivery_time_prediction.Webhook.{
  WebhookSubscription, WebhookDelivery, WebhookDb, Delivered, Transport, deliver_webhook,
}

-- The answer, less its fixed text.
pub record RetryResponse : Type 0 where
  pub is_success : Bool
  pub status_code : ℕ

abbrev pub has_delivery_id : String → WebhookDelivery → Bool
has_delivery_id i d = d.id == i

abbrev pub has_subscription_id : String → WebhookSubscription → Bool
has_subscription_id i s = s.id == i

-- The assignments to the row.
abbrev pub redelivered : Delivered → WebhookDelivery → WebhookDelivery
redelivered result d = record d {
  attempt_count = d.attempt_count + 1;
  status_code = some result.status_code;
  response_time_ms = some result.response_time_ms;
  error_message = result.error;
  status = if result.is_success then "SUCCESS" else "FAILED";
}

module _ {W : Type 0} (hexdigest : String → String → String) (http_post : Transport W) where
  -- POST /webhooks/deliveries/{delivery_id}/retry, for an admin, at the time that is given.
  unfoldable pub retry_delivery :
      String → ℕ → AuthContext → WebhookDb → W → (Result RetryResponse × WebhookDb) × W
  retry_delivery delivery_id now auth db w =
      elim (find? (has_delivery_id delivery_id) db.deliveries) [
        | none ↦ (get_session (raise (http 404 "Delivery not found")) db, w)
        | some delivery ↦
            elim (find? (has_subscription_id delivery.subscription_id) db.subscriptions) [
              | none ↦ (get_session (raise (http 404 "Subscription not found")) db, w)
              | some sub ↦
                  let (result, w') =
                    deliver_webhook hexdigest http_post delivery.url delivery.payload sub.secret now
                      w in
                  (
                    get_session
                        (modify (λ rows. record rows {
                          deliveries =
                              modify_first (has_delivery_id delivery_id) (redelivered result)
                                rows.deliveries;
                        })
                          >> pure (record {
                            is_success = result.is_success;
                            status_code = result.status_code;
                          }))
                        db,
                    w',
                  )
            ]
      ]
