-- ===== src/Saga/Confirm.antt =====
-- services/orchestrator/saga_state_machine.py: step 3 of `start_saga`, the ETA and the confirmation.
use delivery_time_prediction.Prelude.{
  ℕ, Bool, true, false, not, ◌&&◌, Option, none, some, [], ◌∷◌, concat, if◌then◌else◌, nat_eq,
}
use delivery_time_prediction.Prelude.Float.{float}
use delivery_time_prediction.Core.Result.{ok, err}
use delivery_time_prediction.Saga.State.{
  eta_pending, confirmed, confirmed_degraded, value, forward, SagaInstance,
}
use delivery_time_prediction.Saga.Services.{
  get, get_or, has_key, EtaResult, is_truthy, StatusUpdate, Services,
}
use delivery_time_prediction.Saga.Compensate.{update_order}
use delivery_time_prediction.Saga.Session.{
  SagaSession, commit, transition, Outcome, set_saga, returned,
}

-- What the ETA step knows: the answer, if there is one, and whether it is degraded.
abbrev pub EtaAnswer : Type 0
EtaAnswer = Option EtaResult × Bool

-- `if eta_result and "eta_minutes" in eta_result: is_degraded = eta_result.get("degraded", False)`
abbrev pub read_degraded : EtaResult → Bool
read_degraded e =
    if is_truthy e && has_key e.eta_minutes
    then elim (get_or e.degraded false) [ none ↦ false | some b ↦ b ]
    else true

abbrev confirm_with : EtaResult → SagaInstance → SagaInstance
confirm_with e saga = record saga {
  eta_minutes = get e.eta_minutes;
  eta_lower = get e.lower_bound;
  eta_upper = get e.upper_bound;
  degraded = 0;
}

abbrev fall_back : SagaInstance → SagaInstance
fall_back saga = record saga {
  eta_minutes = some (float 32);
  eta_lower = some (float 25);
  eta_upper = some (float 40);
  degraded = 1;
}

abbrev degrade_with : EtaResult → SagaInstance → SagaInstance
degrade_with e saga = record saga {
  eta_minutes = get_or e.eta_minutes (float 32);
  eta_lower = get_or e.lower_bound (float 25);
  eta_upper = get_or e.upper_bound (float 40);
  degraded = 1;
}

abbrev pub confirmation : SagaInstance → StatusUpdate
confirmation saga = record {
  order_id = saga.order_id;
  new_status = value saga.current_state;
  eta = some (record {
    eta_minutes = saga.eta_minutes;
    eta_lower = saga.eta_lower;
    eta_upper = saga.eta_upper;
    degraded = not (nat_eq saga.degraded 0);
  });
}

module _ {W D : Type 0} (svc : Services W D) where
  open svc use {clock, str_float, no_data, eta}

  -- The call of the ETA service; an exception is logged only.
  unfoldable pub ask_eta : Option D → W → EtaAnswer × W
  ask_eta order_data w = elim eta [
    | none ↦ ((none, true), w)
    | some predict ↦
        let (r, w') = predict (elim order_data [ none ↦ no_data | some d ↦ d ]) w in
        elim r [
          | err e ↦ ((none, true), w')
          | ok none ↦ ((none, true), w')
          | ok (some e) ↦ ((some e, read_degraded e), w')
        ]
  ]

  -- The two ways to confirm.
  unfoldable pub confirm : EtaAnswer → ℕ → SagaSession → SagaSession
  confirm (none, is_degraded) now ses =
      transition now confirmed_degraded "eta_degraded_confirmed" forward
        (some "ETA unavailable, using fallback") (set_saga (fall_back ses.saga) ses)
  confirm (some e, is_degraded) now ses =
      if is_truthy e && not is_degraded
      then transition now confirmed "eta_received_confirmed" forward
          (some (concat ("ETA: " ∷ str_float (get e.eta_minutes) ∷ " min" ∷ [])))
          (set_saga (confirm_with e ses.saga) ses)
      else if is_truthy e && is_degraded
      then transition now confirmed_degraded "eta_degraded_confirmed" forward
          (some "ETA returned in degraded mode") (set_saga (degrade_with e ses.saga) ses)
      else transition now confirmed_degraded "eta_degraded_confirmed" forward
          (some "ETA unavailable, using fallback") (set_saga (fall_back ses.saga) ses)

  -- Step 3, with the update of the order service.
  unfoldable pub eta_step : Option D → SagaSession → W → Outcome W
  eta_step order_data ses w =
      let asked = commit (transition (clock w) eta_pending "eta_request_start" forward none ses) in
      let (answer, w') = ask_eta order_data w in
      let done = confirm answer (clock w') asked in
      let closed = commit (set_saga (record done.saga { completed_at = some (clock w') }) done) in
      returned closed (update_order svc (confirmation closed.saga) w')
