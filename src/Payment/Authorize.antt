-- ===== src/Payment/Authorize.antt =====
-- services/payment/app.py: what POST /payments/authorize promises.
use delivery_time_prediction.Prelude.{
  ℕ, String, ◌≡◌, refl, inl, inr, Bool, true, false, none, some, [], ◌∷◌, ◌++◌, arith, eq_refl, any,
  Bool-cases, if◌then◌else◌, ◌||◌, ◌==◌,
}
use delivery_time_prediction.Prelude.Int.{pos, ltb_ℤ, ◌+ℤ◌}
use delivery_time_prediction.Prelude.Float.{Float}
use delivery_time_prediction.Core.Result.{Result, ok, err, integrity_error}
use delivery_time_prediction.Core.Idempotency
use delivery_time_prediction.Core.Idempotency.{get-set}
use delivery_time_prediction.Payment.{
  AuthorizePaymentRequest, Payment, PaymentStatus, PaymentResponse, PaymentService, authorized,
  declined, clashes, add_payment, should_fail, authorized_payment, authorize_response,
  authorize_payment,
}
use delivery_time_prediction.Payment.Ledger.{net, net-append}

pub authorize_payment-cached :
    (request : AuthorizePaymentRequest) (payment_id : String) (draw : Float) (now : ℕ)
    (s : PaymentService) (e : Idempotency.Entry PaymentResponse)
    → Idempotency.get s.idem_store request.idempotency_key ≡ some e
    → authorize_payment request payment_id draw now s ≡ (ok e.response, s)
unfolding authorize_payment
authorize_payment-cached request payment_id draw now s e h = ground arith

module _ (request : AuthorizePaymentRequest) (payment_id : String) (draw : Float) (now : ℕ) where
  abbrev pub fails : PaymentService → Bool
  fails s = should_fail s request.amount draw

  abbrev pub after_authorize : PaymentService → PaymentService
  after_authorize s = record s {
    payments = s.payments ++ authorized_payment request payment_id (fails s) now ∷ [];
    idem_store =
        Idempotency.set s.idem_store request.idempotency_key
          (authorize_response request payment_id (fails s)) 200 now;
  }

  pub authorize_payment-fresh :
      (s : PaymentService)
      → Idempotency.get s.idem_store request.idempotency_key ≡ none
      → any (clashes (authorized_payment request payment_id (fails s) now)) s.payments ≡ false
      → authorize_payment request payment_id draw now s
        ≡ (ok (authorize_response request payment_id (fails s)), after_authorize s)
  unfolding authorize_payment add_payment
  authorize_payment-fresh s h c = ground arith

  pub authorize_payment-clash :
      (s : PaymentService)
      → Idempotency.get s.idem_store request.idempotency_key ≡ none
      → any (clashes (authorized_payment request payment_id (fails s) now)) s.payments ≡ true
      → authorize_payment request payment_id draw now s ≡ (err integrity_error, s)
  unfolding authorize_payment add_payment
  authorize_payment-clash s h c = ground arith

  pub net-after_authorize :
      (s : PaymentService)
      → net (after_authorize s).payments
        ≡ net s.payments +ℤ (if fails s then pos 0 else request.amount)
  net-after_authorize s = elim (Bool-cases (fails s)) [
    | inl e ↦ rw e (net-append s.payments (authorized_payment request payment_id true now))
    | inr e ↦ rw e (net-append s.payments (authorized_payment request payment_id false now))
  ]

  -- The amount is above the threshold, or the draw falls below the failure rate.
  abbrev pub declines : PaymentService → Bool
  declines s = ltb_ℤ s.always_fail_over request.amount || ltb_ℤ draw s.fail_rate

  -- The row of a payment that was asked for, with the status of the answer.
  abbrev pub IsRowOf : PaymentStatus → Payment → Type 0
  IsRowOf status p =
      (p.payment_id ≡ payment_id)
      × (p.order_id ≡ request.order_id)
      × (p.amount ≡ request.amount)
      × (p.status ≡ status)
      × (p.idempotency_key ≡ request.idempotency_key)

  abbrev pub AuthorizeEnds : PaymentService → Result PaymentResponse × PaymentService → Type 0
  AuthorizeEnds s (ok response, s') =
      (response.status ≡ (if declines s then declined else authorized))
      × (response.payment_id ≡ payment_id)
      × (response.amount ≡ request.amount)
      × ((p : Payment) × (s'.payments ≡ s.payments ++ p ∷ []) × IsRowOf response.status p)
      × (net s'.payments ≡ net s.payments +ℤ (if declines s then pos 0 else request.amount))
      × (Idempotency.get s'.idem_store request.idempotency_key
          ≡ some (record { response = response; status_code = 200; cached_at = now }))
  AuthorizeEnds s (err e, s') =
      (e ≡ integrity_error)
      × (any (λ old. old.payment_id == payment_id || old.idempotency_key == request.idempotency_key)
            s.payments
          ≡ true)
      × (s' ≡ s)

  -- A call with a key that is not cached declines exactly when the amount is above the threshold or
  -- the draw below the failure rate. Either way it records one payment, raises the money held by
  -- the amount if it authorized and by nothing if it declined, and caches its answer under the
  -- key; or it raises IntegrityError, because its identifier or its key stands in a row already, and
  -- leaves the service as it was.
  pub authorize_payment_ends :
      (s : PaymentService)
      → Idempotency.get s.idem_store request.idempotency_key ≡ none
      → AuthorizeEnds s (authorize_payment request payment_id draw now s)
  unfolding should_fail
  authorize_payment_ends s h =
      elim (Bool-cases
        (any (clashes (authorized_payment request payment_id (fails s) now)) s.payments)) [
          | inl c ↦ rw (authorize_payment-clash s h c) (refl, c, refl)
          | inr c ↦ rw (authorize_payment-fresh s h c) (
            refl,
            refl,
            refl,
            (
              authorized_payment request payment_id (fails s) now,
              refl,
              (refl, refl, refl, refl, refl),
            ),
            net-after_authorize s,
            simp (get-set, eq_refl),
          )
        ]
