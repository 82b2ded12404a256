-- ===== src/Payment/Refund.antt =====
-- services/payment/app.py: what POST /payments/refund gives back.
use delivery_time_prediction.Prelude.{
  ℕ, String, ◌≡◌, ◌≢◌, refl, ap, ◌∙◌, false, none, some, [], ◌∷◌, ◌++◌, arith, eq_of_ne, any, find?,
  modify_first,
}
use delivery_time_prediction.Prelude.Int.{◌+ℤ◌, int_laws, pos_part, neg_part, neg_parts}
use delivery_time_prediction.Prelude.Float.{Float}
use delivery_time_prediction.Core.Result.{Result, ok}
use delivery_time_prediction.Core.Idempotency
use delivery_time_prediction.Core.Idempotency.{get-set}
use delivery_time_prediction.Payment.{
  AuthorizePaymentRequest, RefundPaymentRequest, Payment, PaymentResponse, PaymentService,
  authorized, refunded, clashes, should_fail, authorized_payment, authorize_payment, has_payment_id,
  refund_of, mark_refunded, refund_block, refund_response, refund_payment,
}
use delivery_time_prediction.Payment.Ledger.{
  net, net-append, held_by, net-mark_refunded, find-append, find_added, find-mark_refunded,
}
use delivery_time_prediction.Payment.Authorize.{authorize_payment-fresh, net-after_authorize}

module _ (request : RefundPaymentRequest) (refund_id : String) (now : ℕ) (original : Payment) where
  abbrev pub after_refund : PaymentService → PaymentService
  after_refund s = record s {
    payments =
        modify_first (has_payment_id request.payment_id) mark_refunded
          (s.payments ++ refund_of request refund_id now original ∷ []);
    idem_store =
        Idempotency.set s.idem_store request.idempotency_key
          (refund_response request refund_id original) 200 now;
  }

  -- With the payment found and an unused identifier and key, the refund goes through: it answers
  -- with the amount of the payment.
  pub refund_payment-found :
      (s : PaymentService)
      → Idempotency.get s.idem_store request.idempotency_key ≡ none
      → find? (has_payment_id request.payment_id) s.payments ≡ some original
      → any (clashes (refund_of request refund_id now original)) s.payments ≡ false
      → refund_payment request refund_id now s
        ≡ (ok (refund_response request refund_id original), after_refund s)
  unfolding refund_payment refund_block
  refund_payment-found s h f c = ground arith

  net-after_refund :
      (s : PaymentService)
      → find? (has_payment_id request.payment_id) s.payments ≡ some original
      → net (after_refund s).payments +ℤ held_by original ≡ net s.payments
  net-after_refund s f =
      let rows = s.payments ++ refund_of request refund_id now original ∷ [] in
      let marked =
        net-mark_refunded request.payment_id rows original
          (find-append request.payment_id s.payments original _ f) in
      let added = net-append s.payments (refund_of request refund_id now original) in
      omega (
        int_laws,
        (neg_parts original.amount).0,
        (neg_parts original.amount).1,
        ap pos_part marked,
        ap neg_part marked,
        ap pos_part added,
        ap neg_part added,
      )

  -- A refund under a key that is not cached, of a payment that is found, and whose own row has an
  -- unused identifier and key, lowers the money held by exactly what the payment counted for: by
  -- its amount if it was authorized, by nothing if it was declined.
  pub refund_payment-net :
      (s : PaymentService)
      → Idempotency.get s.idem_store request.idempotency_key ≡ none
      → find? (has_payment_id request.payment_id) s.payments ≡ some original
      → any (clashes (refund_of request refund_id now original)) s.payments ≡ false
      → net (refund_payment request refund_id now s).1.payments +ℤ held_by original ≡ net s.payments
  refund_payment-net s h f c = rw (refund_payment-found s h f c) (net-after_refund s f)

-- An answer that gives back the amount of a payment under this identifier.
abbrev pub IsRefundOf : Payment → String → Result PaymentResponse → Type 0
IsRefundOf original refund_id r =
    (response : PaymentResponse) × (r ≡ ok response)
    × (response.status ≡ refunded)
    × (response.amount ≡ original.amount)
    × (response.payment_id ≡ refund_id)

-- Nothing looks at the status of the payment: two refunds of one authorized payment under two
-- different keys that are not cached, each with an unused identifier and key, both answer REFUNDED with its
-- amount, and together take its amount out twice.
pub refund_payment_twice :
    (first second : RefundPaymentRequest) (first_id second_id : String) (now later : ℕ)
    (s : PaymentService) (original : Payment)
    → Idempotency.get s.idem_store first.idempotency_key ≡ none
    → Idempotency.get s.idem_store second.idempotency_key ≡ none
    → first.idempotency_key ≢ second.idempotency_key
    → second.payment_id ≡ first.payment_id
    → find? (has_payment_id first.payment_id) s.payments ≡ some original
    → original.status ≡ authorized
    → any (clashes (refund_of first first_id now original)) s.payments ≡ false
    → any
        (clashes (refund_of second second_id later original))
        (refund_payment first first_id now s).1.payments
      ≡ false
    → let (r1, s1) = refund_payment first first_id now s in
      let (r2, s') = refund_payment second second_id later s1 in
      IsRefundOf original first_id r1
      × IsRefundOf original second_id r2
      × (net s'.payments +ℤ original.amount +ℤ original.amount ≡ net s.payments)
refund_payment_twice first second first_id second_id now later s original h k ne same f status c d =
    let s' = (refund_payment first first_id now s).1 in
    let once = refund_payment-found first first_id now original s h f c in
    let marked = mark_refunded original in
    let uncached : Idempotency.get s'.idem_store second.idempotency_key ≡ none =
      rw (once, get-set, eq_of_ne _ _ ne) k in
    let found : find? (has_payment_id second.payment_id) s'.payments ≡ some marked =
      rw (once, same)
        (find-mark_refunded first.payment_id _ original
          (find-append first.payment_id s.payments original _ f)) in
    let e = refund_payment-net first first_id now original s h f c in
    let e' = refund_payment-net second second_id later marked s' uncached found d in
    let counts : held_by original ≡ original.amount = rw status in
    let e'' : net s'.payments +ℤ original.amount ≡ net s.payments = rw counts at e in
    (
      (refund_response first first_id original, rw once refl, refl, refl, refl),
      (
        refund_response second second_id marked,
        rw (refund_payment-found second second_id later marked s' uncached found d) refl,
        refl,
        refl,
        refl,
      ),
      cc (e', e''),
    )

-- Refunding a payment that has just been authorized brings the money held back to what it was
-- before, if neither key was cached and the identifiers and keys of both rows were unused.
pub refund_payment-authorize_payment :
    (request : AuthorizePaymentRequest) (refund : RefundPaymentRequest)
    (payment_id refund_id : String) (draw : Float) (now later : ℕ) (s : PaymentService)
    → Idempotency.get s.idem_store request.idempotency_key ≡ none
    → should_fail s request.amount draw ≡ false
    → any (clashes (authorized_payment request payment_id false now)) s.payments ≡ false
    → refund.payment_id ≡ payment_id
    → Idempotency.get
        (authorize_payment request payment_id draw now s).1.idem_store
        refund.idempotency_key
      ≡ none
    → any
        (clashes
          (refund_of refund refund_id later (authorized_payment request payment_id false now)))
        (authorize_payment request payment_id draw now s).1.payments
      ≡ false
    → net
        (refund_payment refund refund_id later
          (authorize_payment request payment_id draw now s).1).1.payments
      ≡ net s.payments
refund_payment-authorize_payment request refund payment_id refund_id draw now later s h passes c
      same k d =
    let charged = authorized_payment request payment_id false now in
    let s' = (authorize_payment request payment_id draw now s).1 in
    let once = authorize_payment-fresh request payment_id draw now s h c in
    let found : find? (has_payment_id refund.payment_id) s'.payments ≡ some charged =
      rw (once, same, passes) (find_added charged s.payments c) in
    let back = refund_payment-net refund refund_id later charged s' k found d in
    let added : net s'.payments ≡ net s.payments +ℤ request.amount =
      rw once (net-after_authorize request payment_id draw now s ∙ rw passes) in
    omega (int_laws, ap pos_part back, ap neg_part back, ap pos_part added, ap neg_part added)
