-- ===== src/Saga/Compensate.antt =====
-- services/orchestrator/saga_state_machine.py: `_compensate`.
use delivery_time_prediction.Prelude.{String, Option, none, some, [], ◌∷◌, concat, if◌then◌else◌}
use delivery_time_prediction.Core.Result.{Result, ok, err}
use delivery_time_prediction.Core.Idempotency.{generate_idempotency_key}
use delivery_time_prediction.Saga.State.{
  refunding, refunded, cancelled, manual_review, value, compensate,
}
use delivery_time_prediction.Saga.Services.{get, PaymentResult, StatusUpdate, Services}
use delivery_time_prediction.Saga.Session.{
  SagaSession, commit, transition, Outcome, set_saga, close_with, text_truthy, or_empty, returned,
}

-- `self.order.update_status(...)`, whose exceptions are logged only.
unfoldable pub update_order : {W D : Type 0} → Services W D → StatusUpdate → W → W
update_order svc update w = elim svc.order [
  | none ↦ w
  | some update_status ↦ (update_status update w).1
]

-- `digest` is hashlib.sha256(...).hexdigest()[:32].
module _ {W D : Type 0} (svc : Services W D) (digest : String → String) where
  open svc use {clock, str, refund}

  -- The end of `_compensate`.
  unfoldable pub cancel_saga : Option String → SagaSession → W → Outcome W
  cancel_saga reason ses w =
      let ses' = commit (
        close_with reason (clock w)
          (transition (clock w) cancelled "saga_cancelled" compensate reason ses)) in
      returned ses' (
        update_order svc
          (record { order_id = ses.saga.order_id; new_status = value cancelled; eta = none }) w)

  -- What follows the answer of the refund; `ses` has committed REFUNDING.
  unfoldable pub after_refund : Result PaymentResult → Option String → SagaSession → W → Outcome W
  after_refund (ok refund_result) reason ses w =
      let refund_id = get refund_result.payment_id in
      cancel_saga reason
        (transition (clock w) refunded "compensate_refund_done" compensate refund_id
          (set_saga (record ses.saga { refund_id = refund_id }) ses))
        w
  after_refund (err e) reason ses w =
      returned
        (commit (
          close_with (some (concat ("Compensation failed: " ∷ str e ∷ []))) (clock w) (
            transition (clock w) manual_review "compensate_refund_failed" compensate (some (str e))
              ses)))
        w

  -- `_compensate`
  unfoldable pub compensate_saga : Option String → SagaSession → W → Outcome W
  compensate_saga reason ses w =
      if text_truthy ses.saga.payment_id
      then (let ses' =
            commit (transition (clock w) refunding "compensate_refund_start" compensate none ses) in
          let (r, w') =
            refund ses.saga.order_id (or_empty ses.saga.payment_id)
              (generate_idempotency_key digest (ses.saga.saga_id ∷ "payment" ∷ "refund" ∷ [])) w in
          after_refund r reason ses' w')
      else cancel_saga reason ses w
