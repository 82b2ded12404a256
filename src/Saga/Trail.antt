-- ===== src/Saga/Trail.antt =====
-- services/orchestrator/saga_state_machine.py: the transitions that its header describes, and the
-- step log as a walk along them.
use mathlib.Core.List.{append-nil, append_assoc}
use delivery_time_prediction.Prelude.{
  ℕ, String, ◌≡◌, refl, sym, ◌∙◌, subst, true, Option, some, List, [], ◌∷◌, ◌++◌, arith, eq_refl,
  find?, any, modify_first,
}
use delivery_time_prediction.Saga.State.{
  SagaState, created, payment_pending, payment_ok, payment_failed, inventory_pending, inventory_ok,
  inventory_failed, eta_pending, confirmed, confirmed_degraded, refunding, refunded, cancelled,
  manual_review, StepType, SagaInstance, SagaStepLog,
}
use delivery_time_prediction.Saga.Session.{
  SagaSession, has_saga_id, inserted, commit, transition, set_saga,
}

-- One edge of the state diagram.
infix 40 ◌⟶◌
pub data ◌⟶◌ : SagaState → SagaState → Type 0 where
  start : created ⟶ payment_pending
  pay : payment_pending ⟶ payment_ok
  decline : payment_pending ⟶ payment_failed
  give_up : payment_failed ⟶ cancelled
  reserve : payment_ok ⟶ inventory_pending
  reserved : inventory_pending ⟶ inventory_ok
  run_out : inventory_pending ⟶ inventory_failed
  ask : inventory_ok ⟶ eta_pending
  confirm : eta_pending ⟶ confirmed
  degrade : eta_pending ⟶ confirmed_degraded
  compensate : inventory_failed ⟶ refunding
  nothing_paid : inventory_failed ⟶ cancelled
  refund : refunding ⟶ refunded
  refund_failed : refunding ⟶ manual_review
  cancel : refunded ⟶ cancelled

-- The log `base` with entries of the saga `i` behind it that lead from CREATED to a state, each
-- along an edge and each from the state where the one before it ended.
pub data Trail (base : List SagaStepLog) (i : String) : List SagaStepLog → SagaState → Type 0 where
  here : Trail base i base created
  step :
      {logs : List SagaStepLog} {s : SagaState} (entry : SagaStepLog)
      → Trail base i logs s
      → entry.saga_id ≡ i
      → entry.from_state ≡ s
      → s ⟶ entry.to_state
      → Trail base i (logs ++ entry ∷ []) entry.to_state

-- The log as the session sees it.
abbrev pub logs : SagaSession → List SagaStepLog
logs ses = ses.db.step_logs ++ ses.added

-- The session works on the saga `i`, which is in state `s`; its row is in the database, and its log
-- is a trail.
pub record IsAt (base : List SagaStepLog) (i : String) (s : SagaState) (ses : SagaSession)
    : Type 0 where
  pub same_id : ses.saga.saga_id ≡ i
  pub state : ses.saga.current_state ≡ s
  pub stored : any (has_saga_id i) ses.db.instances ≡ true
  pub trail : Trail base i (logs ses) s

find-modify_first :
    (saga : SagaInstance) (rows : List SagaInstance)
    → any (has_saga_id saga.saga_id) rows ≡ true
    → find? (has_saga_id saga.saga_id) (modify_first (has_saga_id saga.saga_id) (λ _. saga) rows)
      ≡ some saga
find-modify_first saga [] a = cc
find-modify_first saga (x ∷ rows) a =
    ground (arith, find-modify_first saga rows, eq_refl saga.saga_id)

any-modify_first :
    (saga : SagaInstance) (rows : List SagaInstance)
    → any (has_saga_id saga.saga_id) (modify_first (has_saga_id saga.saga_id) (λ _. saga) rows)
      ≡ any (has_saga_id saga.saga_id) rows
any-modify_first saga [] = refl
any-modify_first saga (x ∷ rows) = ground (arith, any-modify_first saga rows, eq_refl saga.saga_id)

module _ {base : List SagaStepLog} {i : String} {s : SagaState} (ses : SagaSession) where
  -- A transition along an edge keeps the session on track.
  pub transition-IsAt :
      (now : ℕ) {new_state : SagaState} (step_name : String) (step_type : StepType)
      (detail : Option String)
      → s ⟶ new_state
      → IsAt base i s ses
      → IsAt base i new_state (transition now new_state step_name step_type detail ses)
  unfolding transition
  transition-IsAt now step_name step_type detail edge t = record {
    same_id = t.same_id;
    state = refl;
    stored = t.stored;
    trail = rw (← append_assoc) (step _ t.trail t.same_id t.state edge);
  }

  listed : IsAt base i s ses → any (has_saga_id ses.saga.saga_id) ses.db.instances ≡ true
  listed t = subst (λ k. any (has_saga_id k) ses.db.instances ≡ true) (sym t.same_id) t.stored

  pub commit-IsAt : IsAt base i s ses → IsAt base i s (commit ses)
  unfolding commit
  commit-IsAt t = record {
    same_id = t.same_id;
    state = t.state;
    stored =
        subst (λ k. any (has_saga_id k) (commit ses).db.instances ≡ true) t.same_id
          (any-modify_first ses.saga ses.db.instances ∙ listed t);
    trail = rw append-nil t.trail;
  }

  pub commit-find :
      IsAt base i s ses → find? (has_saga_id i) (commit ses).db.instances ≡ some ses.saga
  unfolding commit
  commit-find t =
      subst (λ k. find? (has_saga_id k) (commit ses).db.instances ≡ some ses.saga) t.same_id
        (find-modify_first ses.saga ses.db.instances (listed t))

  pub commit-logs : IsAt base i s ses → Trail base i (commit ses).db.step_logs s
  unfolding commit
  commit-logs t = t.trail

  -- Writing other columns of the row.
  pub set_saga-IsAt :
      {saga : SagaInstance}
      → saga.saga_id ≡ ses.saga.saga_id
      → saga.current_state ≡ ses.saga.current_state
      → IsAt base i s ses
      → IsAt base i s (set_saga saga ses)
  set_saga-IsAt e f t = record {
    same_id = e ∙ t.same_id;
    state = f ∙ t.state;
    stored = t.stored;
    trail = t.trail;
  }

any-append_self :
    (saga : SagaInstance) (rows : List SagaInstance)
    → any (has_saga_id saga.saga_id) (rows ++ saga ∷ []) ≡ true
any-append_self saga [] = rw eq_refl
any-append_self saga (x ∷ rows) = ground (arith, any-append_self saga rows)

-- Inserting its row puts a saga on track.
pub inserted-IsAt :
    {base : List SagaStepLog} {s : SagaState} (ses : SagaSession)
    → ses.saga.current_state ≡ s
    → Trail base ses.saga.saga_id (logs ses) s
    → IsAt base ses.saga.saga_id s (inserted ses)
inserted-IsAt ses e t = record {
  same_id = refl;
  state = e;
  stored = any-append_self ses.saga ses.db.instances;
  trail = rw append-nil t;
}
