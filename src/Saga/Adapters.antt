-- ===== src/Saga/Adapters.antt =====
-- services/orchestrator/http_adapters.py: the payment and inventory services over HTTP, and
-- services/orchestrator/app.py: the routes of the orchestrator. The HTTP client is given from
-- outside, as functions on a world.
use delivery_time_prediction.Prelude.{
  ℕ, String, ◌≡◌, refl, false, Option, none, some, List, [], ◌∷◌, concat, if◌then◌else◌, leb,
  nat_eq,
}
use delivery_time_prediction.Prelude.Float.{Float}
use delivery_time_prediction.Core.Result.{Result, ok, err, http, connection_error}
use delivery_time_prediction.Saga.State.{SagaDb}
use delivery_time_prediction.Saga.Services.{PaymentResult, ReserveResult, Services}
use delivery_time_prediction.Saga.Session.{SagaResult, Outcome, get_saga_status}
use delivery_time_prediction.Saga.Machine.{start_saga}

-- `json` is what `response.json()` returns or raises.
pub record Response (B : Type 0) : Type 0 where
  pub status_code : ℕ
  pub text : String
  pub json : Result B

pub record AuthorizeBody : Type 0 where
  pub order_id : String
  pub amount : Float
  pub idempotency_key : String

pub record RefundBody : Type 0 where
  pub order_id : String
  pub payment_id : String
  pub idempotency_key : String

pub record ReserveBody : Type 0 where
  pub order_id : String
  pub items : List String
  pub idempotency_key : String

pub record ReleaseBody : Type 0 where
  pub order_id : String
  pub reservation_id : String
  pub idempotency_key : String

-- The body of `update_status`: `eta_minutes` is a key if it is not None.
pub record StatusBody : Type 0 where
  pub status : String
  pub eta_minutes : Option Float

-- `self.client.patch` of an order, and the POST of a release, whose bodies the orchestrator hands on.
pub record OtherClient (W B : Type 0) : Type 0 where
  pub post_release : ReleaseBody → W → Result (Response B) × W
  pub patch_order : String → StatusBody → W → Result (Response B) × W

-- `self.client.post(path, json=...)` for each path, which may raise.
pub record HttpClient (W : Type 0) : Type 0 where
  pub post_authorize : AuthorizeBody → W → Result (Response PaymentResult) × W
  pub post_refund : RefundBody → W → Result (Response PaymentResult) × W
  pub post_reserve : ReserveBody → W → Result (Response ReserveResult) × W

-- `str_nat` is str of a number.
module _ (str_nat : ℕ → String) where
  -- What `refund` makes of a response: it raises for a server error only.
  unfoldable pub accept : {B : Type 0} → String → Response B → Result B
  accept service r =
      if leb 500 r.status_code
      then err
          (connection_error (concat (service ∷ " service error: " ∷ str_nat r.status_code ∷ [])))
      else r.json

  -- What `authorize` and `reserve` make of a response: they raise for a refused request as well.
  unfoldable pub accept_validated : {B : Type 0} → String → Response B → Result B
  accept_validated service r =
      if leb 500 r.status_code
      then err
          (connection_error (concat (service ∷ " service error: " ∷ str_nat r.status_code ∷ [])))
      else if nat_eq r.status_code 422
      then err (connection_error (concat (service ∷ " validation error: " ∷ r.text ∷ [])))
      else r.json

  abbrev answer : {B W : Type 0} → (Response B → Result B) → Result (Response B) × W → Result B × W
  answer f (ok r, w) = (f r, w)
  answer f (err e, w) = (err e, w)

  module _ {W B : Type 0} (client : OtherClient W B) where
    -- `HttpInventoryService.release`
    pub release : String → String → String → W → Result B × W
    release order_id reservation_id key w = answer (accept "Inventory") (
        client.post_release
          (record { order_id = order_id; reservation_id = reservation_id; idempotency_key = key })
          w)

    -- `HttpOrderService.update_status`
    pub update_status : String → String → Option Float → W → Result B × W
    update_status order_id status eta_minutes w =
        answer (accept "Order")
          (client.patch_order order_id (record { status = status; eta_minutes = eta_minutes }) w)

  module _ {W : Type 0} (client : HttpClient W) where
    -- `HttpPaymentService`
    unfoldable pub authorize : String → Float → String → W → Result PaymentResult × W
    authorize order_id amount key w = answer (accept_validated "Payment") (
        client.post_authorize
          (record { order_id = order_id; amount = amount; idempotency_key = key }) w)

    unfoldable pub refund : String → String → String → W → Result PaymentResult × W
    refund order_id payment_id key w = answer (accept "Payment") (
        client.post_refund
          (record { order_id = order_id; payment_id = payment_id; idempotency_key = key }) w)

    -- `HttpInventoryService.reserve`
    unfoldable pub reserve : String → List String → String → W → Result ReserveResult × W
    reserve order_id items key w = answer (accept_validated "Inventory") (
        client.post_reserve (record { order_id = order_id; items = items; idempotency_key = key })
          w)

    -- A refund that the payment service refuses with a status below 500, such as a 404, returns its
    -- body to the saga as if it were a refund.
    pub refund-refused :
        (order_id payment_id key : String) (w w' : W) (r : Response PaymentResult)
        (body : PaymentResult)
        → client.post_refund
            (record { order_id = order_id; payment_id = payment_id; idempotency_key = key })
            w
          ≡ (ok r, w')
        → leb 500 r.status_code ≡ false
        → r.json ≡ ok body
        → refund order_id payment_id key w ≡ (ok body, w')
    unfolding refund accept
    refund-refused order_id payment_id key w w' r body p s j = rw (p, s, j) refl

pub record StartSagaRequest (D : Type 0) : Type 0 where
  pub order_id : String
  pub items : List String
  pub total_amount : Float
  pub order_data : Option D

-- POST /saga/start, once the orchestrator is initialized.
pub post_saga_start :
    {W D : Type 0}
    → Services W D
    → (String → String)
    → String
    → StartSagaRequest D
    → SagaDb
    → W
    → Outcome W
post_saga_start svc digest saga_id req db w =
    start_saga svc digest saga_id req.order_id req.items req.total_amount req.order_data db w

-- GET /saga/{order_id}
pub get_saga : String → SagaDb → Result SagaResult
get_saga order_id db = elim (get_saga_status order_id db) [
  | none ↦ err (http 404 (concat ("Saga for order " ∷ order_id ∷ " not found" ∷ [])))
  | some result ↦ ok result
]
