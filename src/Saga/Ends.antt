-- ===== src/Saga/Ends.antt =====
-- services/orchestrator/saga_state_machine.py: the ways in which a run of `start_saga` may end, and that
-- `_compensate` and the confirmation end so.
use delivery_time_prediction.Prelude.{
  ℕ, String, ◌≡◌, ◌≢◌, refl, sym, subst, if◌then◌else◌, ◌⊎◌, Bool, not, ◌&&◌, true, false, Option,
  none, some, List, find?,
}
use delivery_time_prediction.Core.Result.{Result, ok, err, key_error}
use delivery_time_prediction.Saga.State.{
  SagaState, payment_pending, inventory_pending, inventory_ok, inventory_failed, eta_pending,
  confirmed, confirmed_degraded, refunding, cancelled, manual_review, SagaInstance, SagaStepLog,
  SagaDb,
}
use delivery_time_prediction.Saga.Services.{PaymentResult, is_truthy, Services}
use delivery_time_prediction.Saga.Session.{
  SagaSession, has_saga_id, commit, SagaResult, saga_result, Outcome, set_saga, text_truthy,
  returned,
}
use delivery_time_prediction.Saga.Compensate.{cancel_saga, after_refund, compensate_saga}
use delivery_time_prediction.Saga.Confirm.{EtaAnswer, confirm, eta_step, ask_eta}
use delivery_time_prediction.Saga.Trail
use delivery_time_prediction.Saga.Trail.{
  ◌⟶◌, Trail, here, step, logs, IsAt, transition-IsAt, commit-IsAt, commit-find, commit-logs,
  set_saga-IsAt, inserted-IsAt,
}

-- The states in which a saga is over.
pub data IsFinal : SagaState → Type 0 where
  confirmed_final : IsFinal confirmed
  degraded_final : IsFinal confirmed_degraded
  cancelled_final : IsFinal cancelled
  review_final : IsFinal manual_review

-- The result is that of the committed row, which is complete and in a final state, and the
-- committed log leads there from CREATED.
pub record Finished (base : List SagaStepLog) (i : String) (result : SagaResult) (db : SagaDb)
    : Type 0 where
  pub saga : SagaInstance
  pub stored : find? (has_saga_id i) db.instances ≡ some saga
  pub answer : result ≡ saga_result saga
  pub final : IsFinal saga.current_state
  pub completed : saga.completed_at ≢ none
  pub trail : Trail base i db.step_logs saga.current_state

-- The run was broken off behind a call that was answered without an identifier: the committed row
-- is the one from before that call.
pub record BrokenOff (base : List SagaStepLog) (i : String) (db : SagaDb) : Type 0 where
  pub saga : SagaInstance
  pub stored : find? (has_saga_id i) db.instances ≡ some saga
  pub state : (saga.current_state ≡ payment_pending) ⊎ (saga.current_state ≡ inventory_pending)
  pub trail : Trail base i db.step_logs saga.current_state

-- A run finishes, or is broken off.
pub data Ends {W : Type 0} (base : List SagaStepLog) (i : String) : Outcome W → Type 0 where
  finished :
      {result : SagaResult} {db : SagaDb} {w : W}
      → Finished base i result db
      → Ends base i (ok result, db, w)
  broken_off :
      {key : String} {db : SagaDb} {w : W}
      → BrokenOff base i db
      → Ends base i (err (key_error key), db, w)

pub some_ne_none : {A : Type 0} (a : A) → some a ≢ none
some_ne_none a e = cc

pub Ends-if :
    {W : Type 0} {base : List SagaStepLog} {i : String} (b : Bool) {x y : Outcome W}
    → Ends base i x
    → Ends base i y
    → Ends base i (if b then x else y)
Ends-if true h k = h
Ends-if false h k = k

-- A commit in a final state ends a run.
pub commit_finishes :
    {W : Type 0} {base : List SagaStepLog} {i : String} {s : SagaState} (ses : SagaSession) (w : W)
    → IsFinal s
    → ses.saga.completed_at ≢ none
    → IsAt base i s ses
    → Ends base i (returned (commit ses) w)
unfolding commit
commit_finishes {base = base} {i = i} ses w f c t = finished (record {
  saga = ses.saga;
  stored = commit-find ses t;
  answer = refl;
  final = subst IsFinal (sym t.state) f;
  completed = c;
  trail = subst (Trail base i (commit ses).db.step_logs) (sym t.state) (commit-logs ses t);
})

-- The session after `confirm`.
data IsConfirmed (base : List SagaStepLog) (i : String) (ses : SagaSession) : Type 0 where
  full_one : IsAt base i confirmed ses → IsConfirmed base i ses
  degraded_one : IsAt base i confirmed_degraded ses → IsConfirmed base i ses

IsConfirmed-if :
    {base : List SagaStepLog} {i : String} (b : Bool) {x y : SagaSession}
    → IsConfirmed base i x
    → IsConfirmed base i y
    → IsConfirmed base i (if b then x else y)
IsConfirmed-if true h k = h
IsConfirmed-if false h k = k

module _ {W D : Type 0} (svc : Services W D) (digest : String → String) {base : List SagaStepLog}
    {i : String} where
  cancel_saga-Ends :
      {s : SagaState} (reason : Option String) (ses : SagaSession) (w : W)
      → s ⟶ cancelled
      → IsAt base i s ses
      → Ends base i (cancel_saga svc digest reason ses w)
  unfolding cancel_saga
  cancel_saga-Ends reason ses w edge t =
      commit_finishes _ _ cancelled_final (some_ne_none _)
        (set_saga-IsAt _ refl refl (transition-IsAt ses _ _ _ _ edge t))

  after_refund-Ends :
      (r : Result PaymentResult) (reason : Option String) (ses : SagaSession) (w : W)
      → IsAt base i refunding ses
      → Ends base i (after_refund svc digest r reason ses w)
  unfolding after_refund
  after_refund-Ends (ok res) reason ses w t =
      cancel_saga-Ends reason _ w Trail.cancel
        (transition-IsAt _ _ _ _ _ Trail.refund (set_saga-IsAt ses refl refl t))
  after_refund-Ends (err x) reason ses w t =
      commit_finishes _ _ review_final (some_ne_none _)
        (set_saga-IsAt _ refl refl (transition-IsAt ses _ _ _ _ Trail.refund_failed t))

  pub compensate_saga-Ends :
      (reason : Option String) (ses : SagaSession) (w : W)
      → IsAt base i inventory_failed ses
      → Ends base i (compensate_saga svc digest reason ses w)
  unfolding compensate_saga
  compensate_saga-Ends reason ses w t =
      Ends-if (text_truthy ses.saga.payment_id)
        (after_refund-Ends _ reason _ _
          (commit-IsAt _ (transition-IsAt ses _ _ _ _ Trail.compensate t)))
        (cancel_saga-Ends reason ses w Trail.nothing_paid t)

  confirm_confirms :
      (answer : EtaAnswer) (now : ℕ) (ses : SagaSession)
      → IsAt base i eta_pending ses
      → IsConfirmed base i (confirm svc answer now ses)
  unfolding confirm
  confirm_confirms (none, b) now ses t =
      degraded_one (transition-IsAt _ _ _ _ _ Trail.degrade (set_saga-IsAt ses refl refl t))
  confirm_confirms (some e, b) now ses t =
      IsConfirmed-if (is_truthy e && not b)
        (full_one (transition-IsAt _ _ _ _ _ Trail.confirm (set_saga-IsAt ses refl refl t)))
        (IsConfirmed-if (is_truthy e && b)
          (degraded_one (transition-IsAt _ _ _ _ _ Trail.degrade (set_saga-IsAt ses refl refl t)))
          (degraded_one (transition-IsAt _ _ _ _ _ Trail.degrade (set_saga-IsAt ses refl refl t))))

  close_confirmed :
      (ses : SagaSession) (now : ℕ) (w : W)
      → IsConfirmed base i ses
      → Ends base i
          (returned (commit (set_saga (record ses.saga { completed_at = some now }) ses)) w)
  close_confirmed ses now w (full_one t) =
      commit_finishes _ w confirmed_final (some_ne_none _) (set_saga-IsAt ses refl refl t)
  close_confirmed ses now w (degraded_one t) =
      commit_finishes _ w degraded_final (some_ne_none _) (set_saga-IsAt ses refl refl t)

  pub eta_step-Ends :
      (order_data : Option D) (ses : SagaSession) (w : W)
      → IsAt base i inventory_ok ses
      → Ends base i (eta_step svc order_data ses w)
  unfolding eta_step
  eta_step-Ends order_data ses w t = close_confirmed _ _ _ (
      confirm_confirms (ask_eta svc order_data w).0 _ _
        (commit-IsAt _ (transition-IsAt ses _ _ _ _ Trail.ask t)))
