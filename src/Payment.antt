-- ===== src/Payment.antt =====
-- The payment service (services/payment/app.py, contracts/payment.py). A row's primary key is its
-- place in the list; the identifier made by uuid4, the draw of `random.random()` and the reading
-- of the clock are arguments of the handler; the artificial latency changes nothing but time.
pub mod Ledger
pub mod Authorize
pub mod Refund
pub mod Replay
mod Tests
use delivery_time_prediction.Prelude.{
  ℕ, String, Bool, ◌||◌, Option, none, some, List, [], ◌∷◌, ◌++◌, ◌==◌, concat, find?, any,
  modify_first, if◌then◌else◌,
}
use delivery_time_prediction.Prelude.Int.{ℤ, pos, neg, ltb_ℤ}
use delivery_time_prediction.Prelude.Float.{Float, float}
use delivery_time_prediction.Core.Result.{Result, ok, err, http, integrity_error}
use delivery_time_prediction.Core.Session.{Session, get_session, raise, modify, ◌>>=◌, ◌>>◌}
use delivery_time_prediction.Core.Idempotency
use delivery_time_prediction.Core.Idempotency.{IdempotencyStore}

pub data PaymentStatus : Type 0 where
  authorized declined refunded failed : PaymentStatus

pub record AuthorizePaymentRequest : Type 0 where
  pub order_id : String
  pub amount : Float
  pub idempotency_key : String

pub record RefundPaymentRequest : Type 0 where
  pub order_id : String
  pub payment_id : String
  pub idempotency_key : String

pub record PaymentResponse : Type 0 where
  pub payment_id : String
  pub order_id : String
  pub amount : Float
  pub status : PaymentStatus
  pub idempotency_key : String
  pub message : Option String

pub record Payment : Type 0 where
  pub payment_id : String
  pub order_id : String
  pub amount : Float
  pub status : PaymentStatus
  pub idempotency_key : String
  pub created_at : ℕ

pub record PaymentService : Type 0 where
  pub payments : List Payment
  pub idem_store : IdempotencyStore PaymentResponse
  pub fail_rate : Float
  pub latency_ms : ℤ
  pub always_fail_over : Float

-- POST /config/latency and POST /config/fail-rate: the number under the key, if it is there.
pub set_latency : Option ℤ → PaymentService → PaymentService
set_latency latency_ms s = record s { latency_ms = elim latency_ms [ none ↦ pos 0 | some n ↦ n ] }

pub set_fail_rate : Option Float → PaymentService → PaymentService
set_fail_rate rate s = record s { fail_rate = elim rate [ none ↦ float 0 | some r ↦ r ] }

-- The UNIQUE columns of `payments`.
abbrev pub clashes : Payment → Payment → Bool
clashes new old = old.payment_id == new.payment_id || old.idempotency_key == new.idempotency_key

-- `session.add(payment)`, with the flush at the commit.
pub add_payment : Payment → Session (List Payment) (Unit {0})
add_payment p rows =
    if any (clashes p) rows then (err integrity_error, rows) else (ok tt, rows ++ p ∷ [])

-- The amount is above the threshold, or the draw falls below the rate.
pub should_fail : PaymentService → Float → Float → Bool
should_fail s amount draw = ltb_ℤ s.always_fail_over amount || ltb_ℤ draw s.fail_rate

abbrev pub authorized_payment : AuthorizePaymentRequest → String → Bool → ℕ → Payment
authorized_payment request payment_id fails now = record {
  payment_id = payment_id;
  order_id = request.order_id;
  amount = request.amount;
  status = if fails then declined else authorized;
  idempotency_key = request.idempotency_key;
  created_at = now;
}

abbrev pub authorize_response : AuthorizePaymentRequest → String → Bool → PaymentResponse
authorize_response request payment_id fails = record {
  payment_id = payment_id;
  order_id = request.order_id;
  amount = request.amount;
  status = if fails then declined else authorized;
  idempotency_key = request.idempotency_key;
  message =
      some
        (if fails then "Payment declined by issuing bank" else "Payment authorized successfully");
}

-- POST /payments/authorize
pub authorize_payment :
    AuthorizePaymentRequest
    → String
    → Float
    → ℕ
    → PaymentService
    → Result PaymentResponse × PaymentService
unfolding get_session
authorize_payment request payment_id draw now s =
    elim (Idempotency.get s.idem_store request.idempotency_key) [
      | some cached ↦ (ok cached.response, s)
      | none ↦
          let fails = should_fail s request.amount draw in
          let (r, rows) =
            get_session (add_payment (authorized_payment request payment_id fails now))
              s.payments in
          elim r [
            | err e ↦ (err e, record s { payments = rows })
            | ok _ ↦
                let response = authorize_response request payment_id fails in
                (
                  ok response,
                  record s {
                    payments = rows;
                    idem_store =
                        Idempotency.set s.idem_store request.idempotency_key response 200 now;
                  },
                )
          ]
    ]

abbrev pub has_payment_id : String → Payment → Bool
has_payment_id i p = p.payment_id == i

abbrev pub refund_of : RefundPaymentRequest → String → ℕ → Payment → Payment
refund_of request refund_id now original = record {
  payment_id = refund_id;
  order_id = request.order_id;
  amount = neg original.amount;
  status = refunded;
  idempotency_key = request.idempotency_key;
  created_at = now;
}

abbrev pub mark_refunded : Payment → Payment
mark_refunded p = record p { status = refunded }

-- The `with` block of `refund_payment`; it leaves `original` for the response.
pub refund_block : RefundPaymentRequest → String → ℕ → Session (List Payment) Payment
unfolding add_payment
refund_block request refund_id now rows = elim (find? (has_payment_id request.payment_id) rows) [
  | none ↦ raise (http 404 (concat ("Payment " ∷ request.payment_id ∷ " not found" ∷ []))) rows
  | some original ↦
      (do
        add_payment (refund_of request refund_id now original)
        modify (modify_first (has_payment_id request.payment_id) mark_refunded)
        λ rows'. (ok original, rows'))
        rows
]

abbrev pub refund_response : RefundPaymentRequest → String → Payment → PaymentResponse
refund_response request refund_id original = record {
  payment_id = refund_id;
  order_id = request.order_id;
  amount = original.amount;
  status = refunded;
  idempotency_key = request.idempotency_key;
  message = some (concat ("Refund issued for original payment " ∷ request.payment_id ∷ []));
}

-- POST /payments/refund
pub refund_payment :
    RefundPaymentRequest → String → ℕ → PaymentService → Result PaymentResponse × PaymentService
unfolding get_session
refund_payment request refund_id now s =
    elim (Idempotency.get s.idem_store request.idempotency_key) [
      | some cached ↦ (ok cached.response, s)
      | none ↦
          let (r, rows) = get_session (refund_block request refund_id now) s.payments in
          elim r [
            | err e ↦ (err e, record s { payments = rows })
            | ok original ↦
                let response = refund_response request refund_id original in
                (
                  ok response,
                  record s {
                    payments = rows;
                    idem_store =
                        Idempotency.set s.idem_store request.idempotency_key response 200 now;
                  },
                )
          ]
    ]
