-- ===== src/Webhook/Dispatch.antt =====
-- services/webhook/app.py: what a dispatch sends and logs.
use delivery_time_prediction.Prelude.{
  ℕ, ◌+◌, String, Bool, true, false, ◌≡◌, refl, ap, sym, ◌∙◌, ◌⊎◌, inl, inr, none, some, List, [],
  ◌∷◌, ◌++◌, arith, select, length, any, false≢true, leb, ltb, nat_eq, ◌≤◌, ◌<◌, ◌&&◌, Bool-cases,
  if◌then◌else◌, ◌==◌,
}
use mathlib.Core.List.{append-nil, append_assoc}
use delivery_time_prediction.Core.Result.{ok, err, integrity_error}
use delivery_time_prediction.Core.Session.{
  get_session, get_session-ok, get_session-err, step_ok, step_err, pure, ◌>>◌,
}
use delivery_time_prediction.Core.Security.{verify_hmac_signature}
use delivery_time_prediction.Core.Security.Tokens.{verify_hmac_signature-compute_hmac_signature}
use delivery_time_prediction.Webhook.{
  WebhookSubscription, WebhookDelivery, WebhookDb, DispatchRequest, Post, Outcome, answers,
  times_out, raises, Transport, deliver_webhook, delivered, signed_post, DeliveryDraw,
  is_subscribed, has_event_type, delivery_of, add_deliveries, dispatch_loop, dispatch_event,
}

-- Two lists of one length, whose elements are related in their order.
pub data Pairwise {A B : Type 0} (R : A → B → Type 0) : List A → List B → Type 0 where
  done : Pairwise R [] []
  pair :
      {a : A} {b : B} {as' : List A} {bs : List B}
      → R a b
      → Pairwise R as' bs
      → Pairwise R (a ∷ as') (b ∷ bs)

-- A request, and what came of it.
abbrev pub Exchange : Type 0
Exchange = Post × Outcome

-- A transport that notes the requests in the order in which they are sent, with what comes of them.
abbrev pub recorded : {W : Type 0} → Transport W → Transport (List Exchange × W)
recorded http_post p (posts, w) =
    let (outcome, w') = http_post p w in (outcome, (posts ++ (p, outcome) ∷ [], w'))

-- A request that the merchant can verify by the secret of the subscription.
abbrev pub IsSent : (String → String → String) → String → WebhookSubscription → Exchange → Type 0
IsSent hexdigest payload_bytes sub (p, _) =
    (p.url ≡ sub.url)
    × (p.content ≡ payload_bytes)
    × (verify_hmac_signature hexdigest sub.secret p.content (some p.signature) ≡ true)

-- A row that logs the first attempt to deliver an event to a subscription.
abbrev pub IsLogged :
    {P : Type 0} → (P → String) → DispatchRequest P → WebhookSubscription → WebhookDelivery → Type 0
IsLogged dumps request sub d =
    (d.subscription_id ≡ sub.id)
    × (d.tenant_id ≡ request.tenant_id)
    × (d.event_id ≡ request.event_id)
    × (d.payload ≡ dumps request.payload)
    × (d.attempt_count ≡ 1)

-- What a row says of the outcome of its request: SUCCESS, with the status code, if that is 2xx;
-- otherwise RETRYING with a time for it, and with the status code, or 0 if there was no answer.
abbrev pub IsOutcome : Exchange → WebhookDelivery → Type 0
IsOutcome (_, answers c ms) d =
    (d.status_code ≡ some c)
    × (((200 ≤ c) × (c < 300) × (d.status ≡ "SUCCESS") × (d.next_retry_at ≡ none))
        ⊎ (((c < 200) ⊎ (300 ≤ c))
            × (d.status ≡ "RETRYING")
            × (t : ℕ) × (d.next_retry_at ≡ some t)))
IsOutcome (_, _) d =
    (d.status_code ≡ some 0) × (d.status ≡ "RETRYING") × (t : ℕ) × (d.next_retry_at ≡ some t)

module _ {P : Type 0} (dumps : P → String) (request : DispatchRequest P) (sub : WebhookSubscription)
    (draw : DeliveryDraw) where
  delivery_of-IsLogged :
      (o : Outcome) → IsLogged dumps request sub (delivery_of dumps request sub (delivered o) draw)
  delivery_of-IsLogged o = (refl, refl, refl, refl, refl)

  delivery_of-IsOutcome :
      (p : Post) (o : Outcome) → IsOutcome (p, o) (delivery_of dumps request sub (delivered o) draw)
  delivery_of-IsOutcome p (answers c ms) = elim (Bool-cases (leb 200 c && ltb c 300)) [
    | inl e ↦ (refl, inl (ground arith, ground arith, rw e refl, rw e refl))
    | inr e ↦ (refl, inr (ground arith, rw e refl, draw.failed_at + 1, rw e refl))
  ]
  delivery_of-IsOutcome p times_out = (refl, refl, draw.failed_at + 1, refl)
  delivery_of-IsOutcome p (raises e) = (refl, refl, draw.failed_at + 1, refl)

module _ {W P : Type 0} (dumps : P → String) (hexdigest : String → String → String)
    (http_post : Transport W) (draws : ℕ → DeliveryDraw) (request : DispatchRequest P) where
  abbrev matching : List WebhookSubscription → List WebhookSubscription
  matching subs = select (has_event_type request.event_type) subs

  -- What the loop over some subscriptions sends, logs and counts.
  abbrev Delivers :
      List WebhookSubscription
      → ℕ
      → List Exchange
      → List WebhookDelivery × ℕ × (List Exchange × W)
      → Type 0
  Delivers subs dispatched posts (rows, dispatched', (posts', w')) =
      (dispatched' ≡ dispatched + length (matching subs))
      × Pairwise (IsLogged dumps request) (matching subs) rows
      × (new : List Exchange) × (posts' ≡ posts ++ new)
      × Pairwise (IsSent hexdigest (dumps request.payload)) (matching subs) new
      × Pairwise IsOutcome new rows

  loop-Delivers :
      (subs : List WebhookSubscription) (dispatched : ℕ) (posts : List Exchange) (w : W)
      → Delivers subs dispatched posts (
          dispatch_loop dumps hexdigest
            (recorded http_post)
            draws
            request
            subs
            dispatched
            (posts, w))
  unfolding dispatch_loop deliver_webhook
  loop-Delivers [] dispatched posts w = (omega arith, done, [], sym (append-nil posts), done, done)
  loop-Delivers (sub ∷ subs) dispatched posts w =
      elim (Bool-cases (has_event_type request.event_type sub)) [
        | inr e ↦ rw (e, dispatch_loop) (loop-Delivers subs dispatched posts w)
        | inl e ↦
            let p =
              signed_post hexdigest http_post sub.url (dumps request.payload) sub.secret
                (draws dispatched).sent_at in
            let signed =
              (verify_hmac_signature-compute_hmac_signature hexdigest sub.secret
                  (dumps request.payload) (some p.signature)).1
                refl in
            let (o, w') = http_post p w in
            let draw = draws dispatched in
            let (n, logged, new, e', sent, known) =
              loop-Delivers subs (dispatched + 1) (posts ++ (p, o) ∷ []) w' in
            rw (e, dispatch_loop, deliver_webhook)
              (
                omega (arith, n),
                pair (delivery_of-IsLogged dumps request sub draw o) logged,
                (p, o) ∷ new,
                e' ∙ append_assoc posts ((p, o) ∷ []) new,
                pair (refl, refl, signed) sent,
                pair (delivery_of-IsOutcome dumps request sub draw p o) known,
              )
      ]

-- Whether the primary keys of some rows are new, and differ from each other.
abbrev pub unclashed : List WebhookDelivery → List WebhookDelivery → Bool
unclashed [] old = true
unclashed (d ∷ rows) old =
    let rest = unclashed rows (old ++ d ∷ []) in if any (λ o. o.id == d.id) old then false else rest

add_deliveries-accepted :
    (rows : List WebhookDelivery) (db : WebhookDb)
    → unclashed rows db.deliveries ≡ true
    → add_deliveries rows db ≡ (ok tt, record db { deliveries = db.deliveries ++ rows })
unfolding add_deliveries
add_deliveries-accepted [] db h =
    ap (λ ds. (ok tt, record db { deliveries = ds })) (sym (append-nil db.deliveries))
add_deliveries-accepted (d ∷ rows) db h =
    elim (Bool-cases (any (λ o. o.id == d.id) db.deliveries)) [
      | inl c ↦ absurd (false≢true (rw c at h))
      | inr c ↦
          rw (add_deliveries, c)
            (add_deliveries-accepted rows (record db { deliveries = db.deliveries ++ d ∷ [] })
                (rw c at h)
              ∙ ap (λ ds. (ok tt, record db { deliveries = ds }))
                  (append_assoc db.deliveries (d ∷ []) rows))
    ]

add_deliveries-refused :
    (rows : List WebhookDelivery) (db : WebhookDb)
    → unclashed rows db.deliveries ≡ false
    → (add_deliveries rows db).0 ≡ err integrity_error
unfolding add_deliveries
add_deliveries-refused [] db h = absurd (false≢true (sym h))
add_deliveries-refused (d ∷ rows) db h = elim (Bool-cases (any (λ o. o.id == d.id) db.deliveries)) [
  | inl c ↦ rw (add_deliveries, c) refl
  | inr c ↦
      rw (add_deliveries, c)
        (add_deliveries-refused rows (record db { deliveries = db.deliveries ++ d ∷ [] })
          (rw c at h))
]

-- The block of the commit.
pub commit_deliveries :
    (rows : List WebhookDelivery) (dispatched : ℕ) (db : WebhookDb)
    → get_session (add_deliveries rows >> pure dispatched) db ≡ (
        if unclashed rows db.deliveries
        then (ok dispatched, record db { deliveries = db.deliveries ++ rows })
        else (err integrity_error, db))
commit_deliveries rows dispatched db = elim (Bool-cases (unclashed rows db.deliveries)) [
  | inl c ↦ rw c (
      get_session-ok _ db _ dispatched (
        step_ok (add_deliveries rows) (λ _. pure dispatched) db _ tt
          (add_deliveries-accepted rows db c)))
  | inr c ↦ rw c (
      get_session-err _ db integrity_error (
        ap (λ p. p.0)
          (step_err (add_deliveries rows) (λ _. pure dispatched) db (add_deliveries rows db).1
            integrity_error
            (ap (λ r. (r, (add_deliveries rows db).1)) (add_deliveries-refused rows db c)))))
]

module _ {W P : Type 0} (dumps : P → String) (hexdigest : String → String → String)
    (http_post : Transport W) (draws : ℕ → DeliveryDraw) (request : DispatchRequest P) where
  -- The active subscriptions of the tenant to the type of the event.
  abbrev pub subscribers : WebhookDb → List WebhookSubscription
  subscribers db =
      select
        (λ s.
          s.tenant_id == request.tenant_id
          && (nat_eq s.is_active 1 && any (λ t. t == request.event_type) s.event_types))
        db.subscriptions

  subscribers-select :
      (subs : List WebhookSubscription)
      → select (has_event_type request.event_type) (select (is_subscribed request.tenant_id) subs)
        ≡ select
            (λ s.
              s.tenant_id == request.tenant_id
              && (nat_eq s.is_active 1 && any (λ t. t == request.event_type) s.event_types))
            subs
  subscribers-select [] = refl
  subscribers-select (x ∷ subs) = elim (Bool-cases (x.tenant_id == request.tenant_id)) [
    | inr e ↦ rw e (subscribers-select subs)
    | inl e ↦ elim (Bool-cases (nat_eq x.is_active 1)) [
      | inr e' ↦ rw (e, e') (subscribers-select subs)
      | inl e' ↦ elim (Bool-cases (any (λ t. t == request.event_type) x.event_types)) [
        | inr e'' ↦ rw (e, e', e'') (subscribers-select subs)
        | inl e'' ↦ rw (e, e', e'') (ap (◌∷◌ x) (subscribers-select subs))
      ]
    ]
  ]

  -- A dispatch sends one request to each active subscription of the tenant to this type of event, in
  -- their order and to nobody else, signed so that the merchant can verify it by the subscription's
  -- secret; it makes one row for each, with the outcome of its request: SUCCESS exactly when the
  -- merchant answered with 2xx, and otherwise RETRYING with a time for that. The rows are committed, and counted in the answer, unless a primary key among them is taken.
  pub dispatch_event-Delivers :
      (db : WebhookDb) (posts : List Exchange) (w : W)
      → let (answer, (posts', w')) =
          dispatch_event dumps hexdigest (recorded http_post) draws request db (posts, w) in
        (rows : List WebhookDelivery) × (new : List Exchange) × (posts' ≡ posts ++ new)
        × Pairwise (IsSent hexdigest (dumps request.payload)) (subscribers db) new
        × Pairwise (IsLogged dumps request) (subscribers db) rows
        × Pairwise IsOutcome new rows
        × (answer ≡ (
            if unclashed rows db.deliveries
            then (ok (length (subscribers db)), record db { deliveries = db.deliveries ++ rows })
            else (err integrity_error, db)))
  unfolding dispatch_event
  dispatch_event-Delivers db posts w =
      let subs = select (is_subscribed request.tenant_id) db.subscriptions in
      let same = subscribers-select db.subscriptions in
      let (n, logged, new, e, sent, known) =
        loop-Delivers dumps hexdigest http_post draws request subs 0 posts w in
      let out =
        dispatch_loop dumps hexdigest (recorded http_post) draws request subs 0 (posts, w) in
      let counted : out.1 ≡ length (subscribers db) = rw (← same) (omega (arith, n)) in
      (
        out.0,
        new,
        e,
        rw (← same) sent,
        rw (← same) logged,
        known,
        rw (← counted) (commit_deliveries out.0 out.1 db),
      )
