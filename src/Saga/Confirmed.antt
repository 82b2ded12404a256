-- ===== src/Saga/Confirmed.antt =====
-- services/orchestrator/saga_state_machine.py: what `start_saga` does once the payment is
-- authorized and the stock reserved.
use delivery_time_prediction.Prelude.{
  ℕ, String, ◌≡◌, refl, ap, arith, ◌∙◌, nat_eq, Bool-cases, inl, inr, Bool, true, false, not, ◌&&◌,
  Option, none, some, List, any, if◌then◌else◌,
}
use delivery_time_prediction.Prelude.Float.{Float}
use delivery_time_prediction.Core.Result.{Result, ok, err}
use delivery_time_prediction.Saga.State.{
  SagaState, eta_pending, forward, confirmed, confirmed_degraded, value, SagaDb,
}
use delivery_time_prediction.Saga.Services.{
  Field, absent, null, val, item, has_key, EtaResult, PaymentResult, ReserveResult, is_truthy,
  StatusUpdate, Services,
}
use delivery_time_prediction.Saga.Session.{
  SagaSession, clashes, commit, transition, SagaResult, saga_result, Outcome,
}
use delivery_time_prediction.Saga.Compensate.{update_order}
use delivery_time_prediction.Saga.Confirm.{EtaAnswer, read_degraded, ask_eta, confirm, eta_step}
use delivery_time_prediction.Saga.Machine.{
  new_saga, after_reserved, after_reserve, inventory_step, after_paid, after_authorize, start_saga,
}
use delivery_time_prediction.Saga.Money.{
  payment_key, inventory_key, world, start_saga-after_authorize,
}

-- What the ETA service gives for the data of an order: None if there is no such service.
abbrev pub eta_answer : {W D : Type 0} → Services W D → Option D → W → Result (Option EtaResult) × W
eta_answer svc order_data w = elim svc.eta [
  | none ↦ (ok none, w)
  | some predict ↦ predict (elim order_data [ none ↦ svc.no_data | some d ↦ d ]) w
]

abbrev says_degraded : Field Bool → Bool
says_degraded absent = false
says_degraded null = false
says_degraded (val b) = b

-- Whether an ETA counts: a dict with an "eta_minutes" that does not say that it is degraded.
abbrev pub is_good : Result (Option EtaResult) → Bool
is_good (ok (some e)) = has_key e.eta_minutes && not (says_degraded e.degraded)
is_good (ok none) = false
is_good (err x) = false

abbrev pub confirmed_state : Result (Option EtaResult) → SagaState
confirmed_state answer = if is_good answer then confirmed else confirmed_degraded

-- What the order service is told of a confirmed run.
abbrev pub confirmed_update : SagaResult → StatusUpdate
confirmed_update res = record {
  order_id = res.order_id;
  new_status = value res.state;
  eta = some (record {
    eta_minutes = res.eta_minutes;
    eta_lower = res.eta_lower;
    eta_upper = res.eta_upper;
    degraded = res.degraded;
  });
}

-- A run that returned a result with this payment and reservation and no refund, in the state that
-- the answer of the ETA service calls for, and whose last call told the order service of it.
pub record ConfirmedBy {W D : Type 0} (svc : Services W D) (pid : String) (rid : Option String)
    (answer : Result (Option EtaResult)) (w : W) (out : Outcome W) : Type 0 where
  pub result : SagaResult
  pub returns : out.0 ≡ ok result
  pub state : result.state ≡ confirmed_state answer
  degraded : result.degraded ≡ not (is_good answer)
  payment : result.payment_id ≡ some pid
  reservation : result.reservation_id ≡ rid
  no_refund : result.refund_id ≡ none
  no_error : result.error_reason ≡ none
  pub told : world out ≡ update_order svc (confirmed_update result) w

-- Whether what the ETA step knows makes it confirm without degradation.
abbrev counts : EtaAnswer → Bool
counts (none, is_degraded) = false
counts (some e, is_degraded) = is_truthy e && not is_degraded

module _ {W D : Type 0} (svc : Services W D) where
  -- What the step makes of an answer.
  abbrev taken : Result (Option EtaResult) × W → EtaAnswer × W
  taken (r, w) = elim r [
    | err x ↦ ((none, true), w)
    | ok none ↦ ((none, true), w)
    | ok (some e) ↦ ((some e, read_degraded e), w)
  ]

  counts-read_degraded :
      (e : EtaResult)
      → counts (some e, read_degraded e) ≡ has_key e.eta_minutes && not (says_degraded e.degraded)
  counts-read_degraded e = by_key e.eta_minutes e.degraded refl refl
    where
      by_key :
          (minutes : Field Float) (degraded : Field Bool)
          → e.eta_minutes ≡ minutes
          → e.degraded ≡ degraded
          → counts (some e, read_degraded e)
            ≡ has_key e.eta_minutes && not (says_degraded e.degraded)
      by_key absent d h k = ground (arith, h, k)
      by_key null absent h k = rw (h, k) refl
      by_key null null h k = rw (h, k) refl
      by_key null (val b) h k = rw (h, k) refl
      by_key (val m) absent h k = rw (h, k) refl
      by_key (val m) null h k = rw (h, k) refl
      by_key (val m) (val b) h k = rw (h, k) refl

  on_answer :
      (a : Result (Option EtaResult) × W) → (counts (taken a).0 ≡ is_good a.0) × ((taken a).1 ≡ a.1)
  on_answer (err x, w) = (refl, refl)
  on_answer (ok none, w) = (refl, refl)
  on_answer (ok (some e), w) = (counts-read_degraded e, refl)

  -- The step takes an ETA to count exactly if it does, and calls nothing else.
  ask_eta-eta_answer :
      (order_data : Option D) (w : W)
      → (counts (ask_eta svc order_data w).0 ≡ is_good (eta_answer svc order_data w).0)
        × ((ask_eta svc order_data w).1 ≡ (eta_answer svc order_data w).1)
  unfolding ask_eta
  ask_eta-eta_answer order_data w = on_service svc.eta refl
    where
      on_service :
          (service : Option (D → W → Result (Option EtaResult) × W))
          → svc.eta ≡ service
          → (counts (ask_eta svc order_data w).0 ≡ is_good (eta_answer svc order_data w).0)
            × ((ask_eta svc order_data w).1 ≡ (eta_answer svc order_data w).1)
      on_service none h = rw (ask_eta, h) (refl, refl)
      on_service (some predict) h =
          rw (ask_eta, h)
            (on_answer (predict (elim order_data [ none ↦ svc.no_data | some d ↦ d ]) w))

  -- `confirm` writes the state and the flag that the answer calls for, and keeps the other columns.
  confirm-columns :
      (answer : EtaAnswer) (now : ℕ) (ses : SagaSession)
      → ((confirm svc answer now ses).saga.current_state
          ≡ (if counts answer then confirmed else confirmed_degraded))
        × (not (nat_eq (confirm svc answer now ses).saga.degraded 0) ≡ not (counts answer))
        × ((confirm svc answer now ses).saga.payment_id ≡ ses.saga.payment_id)
        × ((confirm svc answer now ses).saga.reservation_id ≡ ses.saga.reservation_id)
        × ((confirm svc answer now ses).saga.refund_id ≡ ses.saga.refund_id)
        × ((confirm svc answer now ses).saga.error_reason ≡ ses.saga.error_reason)
  unfolding confirm transition
  confirm-columns (none, b) now ses = (refl, refl, refl, refl, refl, refl)
  confirm-columns (some e, true) now ses = elim (Bool-cases (is_truthy e)) [
    | inl y ↦ rw y (refl, refl, refl, refl, refl, refl)
    | inr n ↦ rw n (refl, refl, refl, refl, refl, refl)
  ]
  confirm-columns (some e, false) now ses = elim (Bool-cases (is_truthy e)) [
    | inl y ↦ rw y (refl, refl, refl, refl, refl, refl)
    | inr n ↦ rw n (refl, refl, refl, refl, refl, refl)
  ]

  eta_step-ConfirmedBy :
      (order_data : Option D) (ses : SagaSession) (w : W) (pid : String)
      → ses.saga.payment_id ≡ some pid
      → ses.saga.refund_id ≡ none
      → ses.saga.error_reason ≡ none
      → ConfirmedBy svc pid ses.saga.reservation_id
          (eta_answer svc order_data w).0
          (eta_answer svc order_data w).1
          (eta_step svc order_data ses w)
  unfolding eta_step confirm commit transition saga_result
  eta_step-ConfirmedBy order_data ses w pid p q e =
      let asked =
        commit (transition (svc.clock w) eta_pending "eta_request_start" forward none ses) in
      let same = ask_eta-eta_answer order_data w in
      let cols =
        confirm-columns (ask_eta svc order_data w).0 (svc.clock (ask_eta svc order_data w).1)
          asked in
      let out =
        saga_result
          (record (confirm svc (ask_eta svc order_data w).0 (svc.clock (ask_eta svc order_data w).1)
            asked).saga { completed_at = some (svc.clock (ask_eta svc order_data w).1) }) in
      record {
        result = out;
        returns = refl;
        state = cols.0 ∙ ap (λ b. if b then confirmed else confirmed_degraded) same.0;
        degraded = cols.1 ∙ ap not same.0;
        payment = cols.2 ∙ p;
        reservation = cols.3;
        no_refund = cols.4 ∙ q;
        no_error = cols.5 ∙ e;
        told = ap (λ w'. update_order svc (confirmed_update out) w') same.1;
      }

module _ {W D : Type 0} (svc : Services W D) (digest : String → String)
    (saga_id order_id : String) where
  module _ (items : List String) (total_amount : Float) (order_data : Option D) (db : SagaDb)
      (w : W)
      (fresh : any (clashes (new_saga saga_id order_id (svc.clock w))) db.instances ≡ false) where
    -- In a run whose row can be inserted: if the payment is authorized under an id and the
    -- reservation is answered RESERVED with an id (which may be None), the run returns with both
    -- and no refund, whatever the ETA service does: CONFIRMED if there is one and it returns a dict
    -- with an "eta_minutes" that does not say that it is degraded, and else, also if it raises,
    -- CONFIRMED_DEGRADED. Behind the call of the ETA service only the order service is called, and
    -- told the state and the ETA of the result.
    pub start_saga-confirmed :
        (res : PaymentResult) (pid : String) (w1 : W)
        → svc.authorize order_id total_amount (payment_key digest saga_id) w ≡ (ok res, w1)
        → res.status ≡ val "AUTHORIZED"
        → res.payment_id ≡ val pid
        → (inv : ReserveResult) (rid : Option String) (w2 : W)
        → svc.reserve order_id items (inventory_key digest saga_id) w1 ≡ (ok inv, w2)
        → inv.status ≡ val "RESERVED"
        → item "reservation_id" inv.reservation_id ≡ ok rid
        → ConfirmedBy svc pid rid
            (eta_answer svc order_data w2).0
            (eta_answer svc order_data w2).1
            (start_saga svc digest saga_id order_id items total_amount order_data db w)
    unfolding after_authorize after_paid inventory_step after_reserve after_reserved commit
        transition
    start_saga-confirmed res pid w1 a st p inv rid w2 b st' q =
        rw
          (
            start_saga-after_authorize svc digest saga_id order_id items total_amount order_data db
                w fresh,
            a,
            st,
            p,
            b,
            st',
            q,
          )
          (eta_step-ConfirmedBy svc order_data _ w2 pid refl refl refl)
