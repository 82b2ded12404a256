-- ===== src/Payment/Tests.antt =====
-- services/payment/app.py on a service with no payments that declines above 500.
use delivery_time_prediction.Prelude.{
  String, ◌≡◌, ◌≢◌, refl, false≢true, ap, false, true, none, some, [], ◌∷◌, any, ◌==◌, eq_iff,
  concat, List,
}
use delivery_time_prediction.Prelude.Int.{pos, ◌+ℤ◌}
use delivery_time_prediction.Prelude.Float.{float}
use delivery_time_prediction.Core.Result.{ok, err, http}
use delivery_time_prediction.Core.Idempotency
use delivery_time_prediction.Core.Idempotency.{get-set}
use delivery_time_prediction.Payment.{
  AuthorizePaymentRequest, RefundPaymentRequest, Payment, PaymentService, should_fail,
  authorized_payment, authorize_response, authorize_payment, add_payment, refund_of, refund_block,
  refund_response, refund_payment, clashes, set_fail_rate,
}
use delivery_time_prediction.Payment.Ledger.{net}
use delivery_time_prediction.Payment.Authorize.{AuthorizeEnds, authorize_payment_ends}
use delivery_time_prediction.Payment.Replay.{
  Call, refunds, sets_fail_rate, serve_all, authorize_payment-replay,
}
use delivery_time_prediction.Payment.Refund.{
  refund_payment-found, IsRefundOf, refund_payment_twice, refund_payment-authorize_payment,
  after_refund,
}

abbrev till : PaymentService
till = record {
  payments = [];
  idem_store = Idempotency.empty;
  fail_rate = float 0;
  latency_ms = pos 0;
  always_fail_over = float 500;
}

abbrev charge : AuthorizePaymentRequest
charge = record { order_id = "o1"; amount = float 20; idempotency_key = "k1" }

abbrev big_charge : AuthorizePaymentRequest
big_charge = record { order_id = "o1"; amount = float 501; idempotency_key = "k1" }

abbrev refund_with : String → RefundPaymentRequest
refund_with key = record { order_id = "o1"; payment_id = "p1"; idempotency_key = key }

abbrev charged : Payment
charged = authorized_payment charge "p1" false 5

abbrev paid : PaymentService
paid = record till {
  payments = charged ∷ [];
  idem_store = Idempotency.set Idempotency.empty "k1" (authorize_response charge "p1" false) 200 5;
}

uncached : (k : String) → Idempotency.get till.idem_store k ≡ none
uncached k = Idempotency.get-empty k

paid_free : (k : String) → ("k1" == k) ≡ false → Idempotency.get paid.idem_store k ≡ none
paid_free k ne = rw (get-set, ne) (uncached k)

small_passes : should_fail till charge.amount (float 0) ≡ false
unfolding should_fail float
small_passes = refl

big_fails : should_fail till big_charge.amount (float 0) ≡ true
unfolding should_fail float
big_fails = refl

-- A rate of one fails every draw below one.
always_fails : should_fail (set_fail_rate (some (float 1)) till) charge.amount (float 0) ≡ true
unfolding should_fail set_fail_rate float
always_fails = refl

authorize_payment-charge :
    authorize_payment charge "p1" (float 0) 5 till
    ≡ (ok (authorize_response charge "p1" false), paid)
unfolding authorize_payment add_payment
authorize_payment-charge = rw (authorize_payment, uncached "k1", small_passes) refl

unknown_refund :
    (refund_payment (refund_with "k2") "p2" 6 till).0
    ≡ err (http 404 (concat ("Payment " ∷ "p1" ∷ " not found" ∷ [])))
unfolding refund_payment refund_block
unknown_refund = rw (refund_payment, uncached "k2") refl

authorize_payment_ends_example :
    AuthorizeEnds big_charge "p1"
      (float 0)
      5
      till
      (authorize_payment big_charge "p1" (float 0) 5 till)
authorize_payment_ends_example =
    authorize_payment_ends big_charge "p1" (float 0) 5 till (uncached "k1")

-- A refund of the payment and a change of the rate between the two calls.
abbrev between : List Call
between = refunds (refund_with "k2") "p2" 6 ∷ sets_fail_rate (some (float 1)) ∷ []

authorize_payment-replay_example :
    let s' = serve_all between (authorize_payment charge "p1" (float 0) 5 till).1 in
    authorize_payment charge "p9" (float 1) 60 s' ≡ (ok (authorize_response charge "p1" false), s')
authorize_payment-replay_example =
    authorize_payment-replay charge charge "p1" "p9" (float 0) (float 1) 5 60 between till
      (authorize_response charge "p1" false) (ap (λ p. p.0) authorize_payment-charge) refl

different_keys : ◌≢◌ {A = String} "k2" "k3"
different_keys e = false≢true ((eq_iff "k2" "k3").1 e)

refunded_once : refund_payment (refund_with "k2") "p2" 6 paid ≡ (
  ok (refund_response (refund_with "k2") "p2" charged),
  after_refund (refund_with "k2") "p2" 6 charged paid,
)
refunded_once =
    refund_payment-found (refund_with "k2") "p2" 6 charged paid (paid_free "k2" refl) refl refl

fresh_again :
    any
      (clashes (refund_of (refund_with "k3") "p3" 7 charged))
      (refund_payment (refund_with "k2") "p2" 6 paid).1.payments
    ≡ false
fresh_again = rw refunded_once refl

refund_payment_twice_example :
    let (r1, s1) = refund_payment (refund_with "k2") "p2" 6 paid in
    let (r2, s2) = refund_payment (refund_with "k3") "p3" 7 s1 in
    IsRefundOf charged "p2" r1
    × IsRefundOf charged "p3" r2
    × (net s2.payments +ℤ float 20 +ℤ float 20 ≡ net paid.payments)
refund_payment_twice_example =
    refund_payment_twice (refund_with "k2") (refund_with "k3") "p2" "p3" 6 7 paid charged
      (paid_free "k2" refl) (paid_free "k3" refl) different_keys refl refl refl refl fresh_again

free_after :
    Idempotency.get (authorize_payment charge "p1" (float 0) 5 till).1.idem_store "k2" ≡ none
free_after = rw authorize_payment-charge (paid_free "k2" refl)

fresh_after :
    any
      (clashes (refund_of (refund_with "k2") "p2" 6 charged))
      (authorize_payment charge "p1" (float 0) 5 till).1.payments
    ≡ false
fresh_after = rw authorize_payment-charge refl

refund_payment-authorize_payment_example :
    net
      (refund_payment
        (refund_with "k2")
        "p2"
        6
        (authorize_payment charge "p1" (float 0) 5 till).1).1.payments
    ≡ net till.payments
refund_payment-authorize_payment_example =
    refund_payment-authorize_payment charge (refund_with "k2") "p1" "p2" (float 0) 5 6 till
      (uncached "k1") small_passes refl refl free_after fresh_after
