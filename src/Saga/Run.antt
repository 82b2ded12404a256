-- ===== src/Saga/Run.antt =====
-- services/orchestrator/saga_state_machine.py: how `start_saga` ends, whatever the services do, when its row can
-- be inserted and when it cannot.
use mathlib.Core.List.{append-nil}
use delivery_time_prediction.Prelude.{
  eq_refl, String, ◌≡◌, refl, sym, subst, inl, inr, true, false, Option, none, some, List, [], ◌∷◌,
  ◌++◌, arith, find?, any,
}
use delivery_time_prediction.Prelude.Float.{Float}
use delivery_time_prediction.Core.Result.{Result, ok, err, integrity_error}
use delivery_time_prediction.Saga.State.{
  payment_pending, payment_ok, inventory_pending, SagaInstance, SagaStepLog, SagaDb,
}
use delivery_time_prediction.Saga.Services.{
  Field, absent, null, val, get, item, PaymentResult, ReserveResult, Services,
}
use delivery_time_prediction.Saga.Session.{
  SagaSession, has_saga_id, has_order_id, clashes, inserted, first_commit, commit, transition,
  is_text,
}
use delivery_time_prediction.Saga.Machine.{
  after_reserved, after_reserve, inventory_step, fail_payment, after_paid, after_authorize,
  after_begin, begin, start_saga, new_saga,
}
use delivery_time_prediction.Saga.Trail
use delivery_time_prediction.Saga.Trail.{
  ◌⟶◌, Trail, here, step, logs, IsAt, transition-IsAt, commit-IsAt, commit-find, commit-logs,
  set_saga-IsAt, inserted-IsAt,
}
use delivery_time_prediction.Saga.Ends.{
  Ends, broken_off, Ends-if, commit_finishes, compensate_saga-Ends, eta_step-Ends, cancelled_final,
  some_ne_none,
}

module _ {W D : Type 0} (svc : Services W D) (digest : String → String) {base : List SagaStepLog}
    {i : String} where
  -- An answer that holds the identifier, even as None, lets the run go on.
  after_reserved_ok :
      (reservation_id : Option String) (order_data : Option D) (ses : SagaSession) (w : W)
      → IsAt base i inventory_pending ses
      → Ends base i (after_reserved svc digest (ok reservation_id) order_data ses w)
  unfolding after_reserved
  after_reserved_ok reservation_id order_data ses w t =
      eta_step-Ends svc digest order_data _ w
        (commit-IsAt _ (transition-IsAt _ _ _ _ _ Trail.reserved (set_saga-IsAt ses refl refl t)))

  after_reserved-Ends :
      (id : Field String) (order_data : Option D) (ses : SagaSession) (w : W)
      → find? (has_saga_id i) ses.db.instances ≡ some ses.saga
      → Trail base i ses.db.step_logs inventory_pending
      → IsAt base i inventory_pending ses
      → Ends base i (after_reserved svc digest (item "reservation_id" id) order_data ses w)
  unfolding after_reserved
  after_reserved-Ends null order_data ses w f l t = after_reserved_ok none order_data ses w t
  after_reserved-Ends (val id) order_data ses w f l t =
      after_reserved_ok (some id) order_data ses w t
  after_reserved-Ends absent order_data ses w f l t = broken_off (record {
    saga = ses.saga;
    stored = f;
    state = inr t.state;
    trail = subst (Trail base i ses.db.step_logs) (sym t.state) l;
  })

  after_reserve-Ends :
      (r : Result ReserveResult) (order_data : Option D) (ses : SagaSession) (w : W)
      → find? (has_saga_id i) ses.db.instances ≡ some ses.saga
      → Trail base i ses.db.step_logs inventory_pending
      → IsAt base i inventory_pending ses
      → Ends base i (after_reserve svc digest r order_data ses w)
  unfolding after_reserve
  after_reserve-Ends (err e) order_data ses w f l t =
      compensate_saga-Ends svc digest _ _ w
        (commit-IsAt _ (transition-IsAt ses _ _ _ _ Trail.run_out t))
  after_reserve-Ends (ok res) order_data ses w f l t =
      Ends-if (is_text "RESERVED" (get res.status))
        (after_reserved-Ends res.reservation_id order_data ses w f l t)
        (compensate_saga-Ends svc digest _ _ w
          (commit-IsAt _ (transition-IsAt ses _ _ _ _ Trail.run_out t)))

  inventory_step-Ends :
      (items : List String) (order_data : Option D) (ses : SagaSession) (w : W)
      → IsAt base i payment_ok ses
      → Ends base i (inventory_step svc digest items order_data ses w)
  unfolding inventory_step commit
  inventory_step-Ends items order_data ses w t =
      let t' = transition-IsAt ses _ _ _ _ Trail.reserve t in
      after_reserve-Ends _ order_data _ _ (commit-find _ t') (commit-logs _ t') (commit-IsAt _ t')

  fail_payment-Ends :
      (failed_step : String) (detail : Option String) (cancelled_step : String)
      (reason : Option String) (ses : SagaSession) (w : W)
      → IsAt base i payment_pending ses
      → Ends base i (fail_payment svc digest failed_step detail cancelled_step reason ses w)
  unfolding fail_payment
  fail_payment-Ends failed_step detail cancelled_step reason ses w t =
      commit_finishes _ _ cancelled_final (some_ne_none _) (
        set_saga-IsAt _ refl refl
          (transition-IsAt _ _ _ _ _ Trail.give_up (transition-IsAt ses _ _ _ _ Trail.decline t)))

  after_paid_ok :
      (payment_id : Option String) (items : List String) (order_data : Option D) (ses : SagaSession)
      (w : W)
      → IsAt base i payment_pending ses
      → Ends base i (after_paid svc digest (ok payment_id) items order_data ses w)
  unfolding after_paid
  after_paid_ok payment_id items order_data ses w t =
      inventory_step-Ends items order_data _ w
        (commit-IsAt _ (transition-IsAt _ _ _ _ _ Trail.pay (set_saga-IsAt ses refl refl t)))

  after_paid-Ends :
      (id : Field String) (items : List String) (order_data : Option D) (ses : SagaSession) (w : W)
      → find? (has_saga_id i) ses.db.instances ≡ some ses.saga
      → Trail base i ses.db.step_logs payment_pending
      → IsAt base i payment_pending ses
      → Ends base i (after_paid svc digest (item "payment_id" id) items order_data ses w)
  unfolding after_paid
  after_paid-Ends null items order_data ses w f l t = after_paid_ok none items order_data ses w t
  after_paid-Ends (val id) items order_data ses w f l t =
      after_paid_ok (some id) items order_data ses w t
  after_paid-Ends absent items order_data ses w f l t = broken_off (record {
    saga = ses.saga;
    stored = f;
    state = inl t.state;
    trail = subst (Trail base i ses.db.step_logs) (sym t.state) l;
  })

  after_authorize-Ends :
      (r : Result PaymentResult) (items : List String) (order_data : Option D) (ses : SagaSession)
      (w : W)
      → find? (has_saga_id i) ses.db.instances ≡ some ses.saga
      → Trail base i ses.db.step_logs payment_pending
      → IsAt base i payment_pending ses
      → Ends base i (after_authorize svc digest r items order_data ses w)
  unfolding after_authorize
  after_authorize-Ends (err e) items order_data ses w f l t = fail_payment-Ends _ _ _ _ ses w t
  after_authorize-Ends (ok res) items order_data ses w f l t =
      Ends-if (is_text "AUTHORIZED" (get res.status))
        (after_paid-Ends res.payment_id items order_data ses w f l t)
        (fail_payment-Ends _ _ _ _ ses w t)

find-append_fresh :
    (saga : SagaInstance) (rows : List SagaInstance)
    → any (clashes saga) rows ≡ false
    → find? (has_saga_id saga.saga_id) (rows ++ saga ∷ []) ≡ some saga
find-append_fresh saga [] h = rw eq_refl refl
find-append_fresh saga (x ∷ rows) h = ground (arith, find-append_fresh saga rows)

any-clashes :
    (saga : SagaInstance) (rows : List SagaInstance)
    → any (has_order_id saga.order_id) rows ≡ true
    → any (clashes saga) rows ≡ true
any-clashes saga [] h = h
any-clashes saga (x ∷ rows) h = ground (arith, any-clashes saga rows)

-- Whatever the services do, a run of a saga whose row can be inserted either returns the result of
-- its committed row, which is then complete and in a final state, or is broken off by a KeyError
-- with its committed row in PAYMENT_PENDING or INVENTORY_PENDING. In both cases the committed log
-- has gained entries of this saga only, which lead from CREATED to the state of the row along the
-- edges of the state diagram.
pub start_saga-Ends :
    {W D : Type 0} (svc : Services W D) (digest : String → String) (saga_id order_id : String)
    (items : List String) (total_amount : Float) (order_data : Option D) (db : SagaDb) (w : W)
    → any (clashes (new_saga saga_id order_id (svc.clock w))) db.instances ≡ false
    → Ends db.step_logs saga_id
        (start_saga svc digest saga_id order_id items total_amount order_data db w)
unfolding start_saga first_commit after_begin transition
start_saga-Ends svc digest saga_id order_id items total_amount order_data db w h =
    let started = inserted (begin svc digest saga_id order_id db w) in
    let t =
      inserted-IsAt (begin svc digest saga_id order_id db w) refl
        (step _ here refl refl Trail.start) in
    rw h (
      after_authorize-Ends svc digest _ items order_data started _
        (find-append_fresh started.saga db.instances h)
        (subst (λ l. Trail db.step_logs saga_id l payment_pending) (append-nil _) t.trail) t)

-- While a row with the same order is stored, whatever state it is in, a start is refused with an
-- IntegrityError: no row or log entry is written, and no service is called.
pub start_saga_once :
    {W D : Type 0} (svc : Services W D) (digest : String → String) (saga_id order_id : String)
    (items : List String) (total_amount : Float) (order_data : Option D) (db : SagaDb) (w : W)
    → any (has_order_id order_id) db.instances ≡ true
    → start_saga svc digest saga_id order_id items total_amount order_data db w
      ≡ (err integrity_error, db, w)
unfolding start_saga first_commit after_begin transition
start_saga_once svc digest saga_id order_id items total_amount order_data db w h =
    rw (any-clashes (new_saga saga_id order_id (svc.clock w)) db.instances h) refl
