-- ===== src/Webhook/Reached.antt =====
-- services/webhook/app.py: the databases that the handlers make, and what can be read from them.
use delivery_time_prediction.Prelude.{
  ℕ, ◌+◌, String, Bool, ◌≡◌, refl, ap, List, [], ◌∷◌, ◌++◌, ◌==◌, find?, modify_first, select, take,
  zero, suc, All, Bool-cases, Option-cases, inl, inr, any,
}
use delivery_time_prediction.Core.Result.{ok, integrity_error}
use delivery_time_prediction.Core.Session.{
  get_session, get_session-ok, get_session-err, step_ok, step_err, pure, ◌>>◌,
}
use delivery_time_prediction.Core.DateTime.{DateTime, aware}
use delivery_time_prediction.Order.{AuthContext}
use delivery_time_prediction.Webhook.{
  WebhookStatus, pending, success, failed, retrying, value, WebhookSubscription, WebhookDelivery,
  WebhookDb, DispatchRequest, Delivered, Transport, DeliveryDraw, has_event_type, is_subscribed,
  delivery_of, dispatch_loop, dispatch_event, deliver_webhook,
}
use delivery_time_prediction.Webhook.Dispatch.{unclashed, commit_deliveries}
use delivery_time_prediction.Webhook.Retry.{
  has_delivery_id, has_subscription_id, redelivered, retry_delivery,
}
use delivery_time_prediction.Webhook.Subscriptions.{
  WebhookSubscriptionCreate, WebhookDeliveryResponse, SubscriptionDraw, status_of, traverse,
  create_subscription, add_subscription, new_subscription, delivery_response, list_deliveries,
  owner, shown, subscription_response,
}

-- The column `status` holds one of the four statuses.
abbrev pub HasStatus : WebhookDelivery → Type 0
HasStatus d = (s : WebhookStatus) × (d.status ≡ value s)

All-append : {A : Type 0} (P : A → Type 0) (xs ys : List A) → All P xs → All P ys → All P (xs ++ ys)
All-append P [] ys h k = k
All-append P (x ∷ xs) ys (p, h) k = (p, All-append P xs ys h k)

All-select :
    {A : Type 0} (P : A → Type 0) (p : A → Bool) (xs : List A) → All P xs → All P (select p xs)
All-select P p [] h = tt
All-select P p (x ∷ xs) (q, h) = elim (Bool-cases (p x)) [
  | inl e ↦ rw e (q, All-select P p xs h)
  | inr e ↦ rw e (All-select P p xs h)
]

All-take : {A : Type 0} (P : A → Type 0) (n : ℕ) (xs : List A) → All P xs → All P (take n xs)
All-take P zero xs h = tt
All-take P (suc n) [] h = tt
All-take P (suc n) (x ∷ xs) (q, h) = (q, All-take P n xs h)

All-modify_first :
    {A : Type 0} (P : A → Type 0) (p : A → Bool) (f : A → A) (xs : List A)
    → ((a : A) → P a → P (f a))
    → All P xs
    → All P (modify_first p f xs)
All-modify_first P p f [] keep h = tt
All-modify_first P p f (x ∷ xs) keep (q, h) = elim (Bool-cases (p x)) [
  | inl e ↦ rw e (keep x q, h)
  | inr e ↦ rw e (q, All-modify_first P p f xs keep h)
]

delivery_of-HasStatus :
    {P : Type 0} (dumps : P → String) (request : DispatchRequest P) (sub : WebhookSubscription)
    (result : Delivered) (draw : DeliveryDraw)
    → HasStatus (delivery_of dumps request sub result draw)
delivery_of-HasStatus dumps request sub result draw = elim (Bool-cases result.is_success) [
  | inl e ↦ (success, rw e refl)
  | inr e ↦ (retrying, rw e refl)
]

redelivered-HasStatus :
    (result : Delivered) (d : WebhookDelivery) → HasStatus (redelivered result d)
redelivered-HasStatus result d = elim (Bool-cases result.is_success) [
  | inl e ↦ (success, rw e refl)
  | inr e ↦ (failed, rw e refl)
]

module _ {W P : Type 0} (dumps : P → String) (hexdigest : String → String → String)
    (http_post : Transport W) (fetch : ℕ → DateTime) (isoformat : DateTime → String) where
  -- The databases that the handlers make, one call after the other, from an empty one.
  pub data Reached : WebhookDb → Type 0 where
    empty : Reached (record { subscriptions = []; deliveries = [] })
    create :
        {db : WebhookDb} (request : WebhookSubscriptionCreate) (draw : SubscriptionDraw)
        (auth : AuthContext)
        → Reached db
        → Reached (create_subscription fetch isoformat request draw auth db).1
    dispatch :
        {db : WebhookDb} (draws : ℕ → DeliveryDraw) (request : DispatchRequest P) (w : W)
        → Reached db
        → Reached (dispatch_event dumps hexdigest http_post draws request db w).0.1
    retry :
        {db : WebhookDb} (delivery_id : String) (now : ℕ) (auth : AuthContext) (w : W)
        → Reached db
        → Reached (retry_delivery hexdigest http_post delivery_id now auth db w).0.1

  loop-HasStatus :
      (draws : ℕ → DeliveryDraw) (request : DispatchRequest P) (subs : List WebhookSubscription)
      (n : ℕ) (w : W)
      → All HasStatus (dispatch_loop dumps hexdigest http_post draws request subs n w).0
  unfolding dispatch_loop
  loop-HasStatus draws request [] n w = tt
  loop-HasStatus draws request (sub ∷ subs) n w =
      elim (Bool-cases (has_event_type request.event_type sub)) [
        | inl e ↦
            rw (e, dispatch_loop)
              (
                delivery_of-HasStatus dumps request sub
                    (deliver_webhook hexdigest http_post sub.url (dumps request.payload) sub.secret
                      (draws n).sent_at w).0
                    (draws n),
                loop-HasStatus draws request subs (n + 1) _,
              )
        | inr e ↦ rw (e, dispatch_loop) (loop-HasStatus draws request subs n w)
      ]

  dispatch_event-HasStatus :
      (draws : ℕ → DeliveryDraw) (request : DispatchRequest P) (db : WebhookDb) (w : W)
      → All HasStatus db.deliveries
      → All HasStatus (dispatch_event dumps hexdigest http_post draws request db w).0.1.deliveries
  unfolding dispatch_event
  dispatch_event-HasStatus draws request db w h =
      let subs = select (is_subscribed request.tenant_id) db.subscriptions in
      let out = dispatch_loop dumps hexdigest http_post draws request subs 0 w in
      rw (commit_deliveries out.0 out.1 db) (elim (Bool-cases (unclashed out.0 db.deliveries)) [
        | inl e ↦
            rw e
              (All-append HasStatus db.deliveries out.0 h (loop-HasStatus draws request subs 0 w))
        | inr e ↦ rw e h
      ])

  retry_delivery-HasStatus :
      (delivery_id : String) (now : ℕ) (auth : AuthContext) (db : WebhookDb) (w : W)
      → All HasStatus db.deliveries
      → All HasStatus (retry_delivery hexdigest http_post delivery_id now auth db w).0.1.deliveries
  unfolding retry_delivery get_session
  retry_delivery-HasStatus delivery_id now auth db w h =
      elim (Option-cases (find? (has_delivery_id delivery_id) db.deliveries)) [
        | inl e ↦ rw (retry_delivery, e) h
        | inr (d, e) ↦
            elim (Option-cases (find? (has_subscription_id d.subscription_id) db.subscriptions)) [
              | inl e' ↦ rw (retry_delivery, e, e') h
              | inr (sub, e') ↦
                  rw (retry_delivery, e, e')
                    (All-modify_first HasStatus _ _ db.deliveries
                      (λ a _.
                        redelivered-HasStatus
                          (deliver_webhook hexdigest http_post d.url d.payload sub.secret now w).0
                          a)
                      h)
            ]
      ]

  create_subscription-deliveries :
      (request : WebhookSubscriptionCreate) (draw : SubscriptionDraw) (auth : AuthContext)
      (db : WebhookDb)
      → (create_subscription fetch isoformat request draw auth db).1.deliveries ≡ db.deliveries
  unfolding create_subscription add_subscription
  create_subscription-deliveries request draw auth db =
      let sub = new_subscription request auth draw in
      let answer = subscription_response sub.secret (isoformat (aware draw.now)) sub in
      let after = record db { subscriptions = db.subscriptions ++ sub ∷ [] } in
      elim (Bool-cases (any (λ old. old.id == draw.id) db.subscriptions)) [
        | inl e ↦
            ap (λ p. p.1.deliveries)
              (get_session-err (add_subscription sub >> pure answer) db integrity_error (
                ap (λ p. p.0)
                  (step_err (add_subscription sub) (λ _. pure answer) db db integrity_error
                    (rw (add_subscription, e) refl))))
        | inr e ↦
            ap (λ p. p.1.deliveries)
              (get_session-ok (add_subscription sub >> pure answer) db after answer (
                step_ok (add_subscription sub) (λ _. pure answer) db after tt
                  (rw (add_subscription, e) refl)))
      ]

  pub Reached-HasStatus : {db : WebhookDb} → Reached db → All HasStatus db.deliveries
  Reached-HasStatus empty = tt
  Reached-HasStatus (create {db} request draw auth r) =
      rw (create_subscription-deliveries request draw auth db) (Reached-HasStatus r)
  Reached-HasStatus (dispatch {db} draws request w r) =
      dispatch_event-HasStatus draws request db w (Reached-HasStatus r)
  Reached-HasStatus (retry {db} delivery_id now auth w r) =
      retry_delivery-HasStatus delivery_id now auth db w (Reached-HasStatus r)

  status_of-value : (s : WebhookStatus) → status_of (value s) ≡ ok s
  unfolding status_of
  status_of-value pending = refl
  status_of-value success = refl
  status_of-value failed = refl
  status_of-value retrying = refl

  traverse-HasStatus :
      (loads : String → P) (rows : List WebhookDelivery)
      → All HasStatus rows
      → (answers : List (WebhookDeliveryResponse P)) × (traverse
            (delivery_response fetch isoformat loads)
            rows
          ≡ ok answers)
  unfolding traverse delivery_response
  traverse-HasStatus loads [] h = ([], refl)
  traverse-HasStatus loads (d ∷ rows) ((s, e), h) =
      let (answers, k) = traverse-HasStatus loads rows h in
      (
        shown fetch isoformat loads s d ∷ answers,
        rw (traverse, delivery_response, e, status_of-value s, k) refl,
      )

  -- Whatever calls were made, and whatever the merchants answered, every row has one of the four
  -- statuses, so that the log of any caller can be read. The database's order loses no row and makes
  -- none up.
  pub list_deliveries-Reached :
      (loads : String → P) (order_by : List WebhookDelivery → List WebhookDelivery)
      (order_by-All : (rows : List WebhookDelivery)
        → All HasStatus rows
        → All HasStatus (order_by rows))
      (limit : ℕ) (auth : AuthContext) (db : WebhookDb)
      → Reached db
      → (answers : List (WebhookDeliveryResponse P)) × (list_deliveries fetch isoformat loads
            order_by limit auth db
          ≡ (ok answers, db))
  unfolding list_deliveries
  list_deliveries-Reached loads order_by order_by-All limit auth db r =
      let own = select (λ d. d.tenant_id == owner auth) db.deliveries in
      let (answers, e) = traverse-HasStatus loads (take limit (order_by own)) (
        All-take HasStatus limit (order_by own)
          (order_by-All own (All-select HasStatus _ db.deliveries (Reached-HasStatus r)))) in
      (answers, get_session-ok _ db db answers (ap (λ x. (x, db)) e))
