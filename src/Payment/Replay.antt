-- ===== src/Payment/Replay.antt =====
-- services/payment/app.py: an answered authorization stays answered, whatever is called after it.
use delivery_time_prediction.Prelude.{
  ℕ, String, ◌≡◌, ◌≢◌, ap, ◌∙◌, inl, inr, Option, none, some, List, [], ◌∷◌, eq_of_ne, any,
  Bool-cases, Option-cases,
}
use delivery_time_prediction.Prelude.Int.{ℤ}
use delivery_time_prediction.Prelude.Float.{Float}
use delivery_time_prediction.Core.Result.{Result, ok, err}
use delivery_time_prediction.Core.Session.{get_session}
use delivery_time_prediction.Core.Idempotency
use delivery_time_prediction.Core.Idempotency.{IdempotencyStore, get-set}
use delivery_time_prediction.Payment.{
  AuthorizePaymentRequest, RefundPaymentRequest, Payment, PaymentResponse, PaymentService, clashes,
  authorized_payment, authorize_payment, refund_block, refund_response, refund_payment, set_latency,
  set_fail_rate,
}
use delivery_time_prediction.Payment.Authorize.{
  AuthorizeEnds, fails, authorize_payment-cached, authorize_payment-fresh, authorize_payment-clash,
  authorize_payment_ends,
}

-- One call of the service, with what uuid4, the random draw and the clock give to it.
pub data Call : Type 0 where
  authorizes : AuthorizePaymentRequest → String → Float → ℕ → Call
  refunds : RefundPaymentRequest → String → ℕ → Call
  sets_latency : Option ℤ → Call
  sets_fail_rate : Option Float → Call

pub serve : Call → PaymentService → PaymentService
serve (authorizes request payment_id draw now) s =
    (authorize_payment request payment_id draw now s).1
serve (refunds request refund_id now) s = (refund_payment request refund_id now s).1
serve (sets_latency n) s = set_latency n s
serve (sets_fail_rate r) s = set_fail_rate r s

pub serve_all : List Call → PaymentService → PaymentService
serve_all [] s = s
serve_all (c ∷ cs) s = serve_all cs (serve c s)

-- What a refund makes of its block.
abbrev refunded_by :
    RefundPaymentRequest
    → String
    → ℕ
    → PaymentService
    → Result Payment × List Payment
    → Result PaymentResponse × PaymentService
refunded_by request refund_id now s (r, rows) = elim r [
  | err x ↦ (err x, record s { payments = rows })
  | ok original ↦
      let response = refund_response request refund_id original in
      (
        ok response,
        record s {
          payments = rows;
          idem_store = Idempotency.set s.idem_store request.idempotency_key response 200 now;
        },
      )
]

module _ (key : String) (e : Idempotency.Entry PaymentResponse) where
  abbrev Cached : IdempotencyStore PaymentResponse → Type 0
  Cached store = Idempotency.get store key ≡ some e

  -- An answer under a key that was not cached does not touch a key that is.
  set-Cached :
      (store : IdempotencyStore PaymentResponse) (k : String) (response : PaymentResponse)
      (code now : ℕ)
      → Cached store
      → Idempotency.get store k ≡ none
      → Cached (Idempotency.set store k response code now)
  set-Cached store k response code now h c =
      let ne : k ≢ key = λ same. cc (h, c, ap (Idempotency.get store) same) in
      get-set store k key response code now ∙ rw (eq_of_ne k key ne) h

  authorize_payment-Cached :
      (request : AuthorizePaymentRequest) (payment_id : String) (draw : Float) (now : ℕ)
      (s : PaymentService)
      → Cached s.idem_store
      → Cached (authorize_payment request payment_id draw now s).1.idem_store
  authorize_payment-Cached request payment_id draw now s h =
      elim (Option-cases (Idempotency.get s.idem_store request.idempotency_key)) [
        | inr (x, c) ↦ rw (authorize_payment-cached request payment_id draw now s x c) h
        | inl c ↦
            elim (Bool-cases (
              any
                (clashes
                  (authorized_payment request payment_id (fails request payment_id draw now s) now))
                s.payments)) [
                  | inl d ↦ rw (authorize_payment-clash request payment_id draw now s c d) h
                  | inr d ↦
                      rw (authorize_payment-fresh request payment_id draw now s c d)
                        (set-Cached s.idem_store request.idempotency_key _ 200 now h c)
                ]
      ]

  refund_payment-Cached :
      (request : RefundPaymentRequest) (refund_id : String) (now : ℕ) (s : PaymentService)
      → Cached s.idem_store
      → Cached (refund_payment request refund_id now s).1.idem_store
  unfolding refund_payment
  refund_payment-Cached request refund_id now s h =
      elim (Option-cases (Idempotency.get s.idem_store request.idempotency_key)) [
        | inr (x, c) ↦ rw (refund_payment, c) h
        | inl c ↦
            rw (refund_payment, c)
              (on_block (get_session (refund_block request refund_id now) s.payments) c)
      ]
    where
      on_block :
          (r : Result Payment × List Payment)
          → Idempotency.get s.idem_store request.idempotency_key ≡ none
          → Cached (refunded_by request refund_id now s r).1.idem_store
      on_block (err x, rows) c = h
      on_block (ok original, rows) c = set-Cached s.idem_store request.idempotency_key _ 200 now h c

  serve-Cached :
      (c : Call) (s : PaymentService) → Cached s.idem_store → Cached (serve c s).idem_store
  unfolding serve set_latency set_fail_rate
  serve-Cached (authorizes request payment_id draw now) s h =
      authorize_payment-Cached request payment_id draw now s h
  serve-Cached (refunds request refund_id now) s h = refund_payment-Cached request refund_id now s h
  serve-Cached (sets_latency n) s h = h
  serve-Cached (sets_fail_rate r) s h = h

  serve_all-Cached :
      (cs : List Call) (s : PaymentService)
      → Cached s.idem_store
      → Cached (serve_all cs s).idem_store
  unfolding serve_all
  serve_all-Cached [] s h = h
  serve_all-Cached (c ∷ cs) s h = serve_all-Cached cs (serve c s) (serve-Cached c s h)

cached_of_ok :
    (request : AuthorizePaymentRequest) (payment_id : String) (draw : Float) (now : ℕ)
    (s : PaymentService) (r : Result PaymentResponse × PaymentService) (response : PaymentResponse)
    → AuthorizeEnds request payment_id draw now s r
    → r.0 ≡ ok response
    → (e : Idempotency.Entry PaymentResponse) × (Idempotency.get r.1.idem_store
          request.idempotency_key
        ≡ some e)
      × (e.response ≡ response)
cached_of_ok request payment_id draw now s (ok x, s') response h e =
    (record { response = x; status_code = 200; cached_at = now }, h.5, cc)
cached_of_ok request payment_id draw now s (err x, s') response h e = cc

-- What an answered call leaves in the cache.
authorize_payment-answered :
    (request : AuthorizePaymentRequest) (payment_id : String) (draw : Float) (now : ℕ)
    (s : PaymentService) (response : PaymentResponse)
    → (authorize_payment request payment_id draw now s).0 ≡ ok response
    → (e : Idempotency.Entry PaymentResponse) × (Idempotency.get
          (authorize_payment request payment_id draw now s).1.idem_store
          request.idempotency_key
        ≡ some e)
      × (e.response ≡ response)
authorize_payment-answered request payment_id draw now s response h =
    elim (Option-cases (Idempotency.get s.idem_store request.idempotency_key)) [
      | inr (e, c) ↦
          let first = authorize_payment-cached request payment_id draw now s e c in
          (e, rw first c, cc (h, first))
      | inl c ↦
          cached_of_ok request payment_id draw now s
            (authorize_payment request payment_id draw now s) response
            (authorize_payment_ends request payment_id draw now s c) h
    ]

-- Once an authorization has been answered, every later call with its key gets the same answer,
-- charges nothing and changes nothing, whatever authorizations, refunds and settings of the service
-- come in between.
pub authorize_payment-replay :
    (request again : AuthorizePaymentRequest) (payment_id other_id : String) (draw redraw : Float)
    (now later : ℕ) (between : List Call) (s : PaymentService) (response : PaymentResponse)
    → (authorize_payment request payment_id draw now s).0 ≡ ok response
    → again.idempotency_key ≡ request.idempotency_key
    → let s' = serve_all between (authorize_payment request payment_id draw now s).1 in
      authorize_payment again other_id redraw later s' ≡ (ok response, s')
authorize_payment-replay request again payment_id other_id draw redraw now later between s response
      h k =
    let (e, found, same) = authorize_payment-answered request payment_id draw now s response h in
    let s' = serve_all between (authorize_payment request payment_id draw now s).1 in
    let kept = serve_all-Cached request.idempotency_key e between _ found in
    authorize_payment-cached again other_id redraw later s' e (rw k kept)
    ∙ ap (λ x. (ok x, s')) same
