-- ===== src/Payment/Ledger.antt =====
-- services/payment/app.py: the money that the rows of `payments` stand for.
use delivery_time_prediction.Prelude.{
  String, ◌≡◌, false, some, List, [], ◌∷◌, ◌++◌, arith, find?, any, modify_first, eq_refl,
  Bool-cases, ap, inl, inr,
}
use delivery_time_prediction.Prelude.Int.{ℤ, pos, pos_part, neg_part, ◌+ℤ◌, int_laws}
use delivery_time_prediction.Payment.{
  PaymentStatus, authorized, declined, refunded, failed, Payment, has_payment_id, mark_refunded,
  clashes,
}

-- What a row adds to the money held: its amount, unless the payment did not go through.
abbrev pub counted : PaymentStatus → ℤ → ℤ
counted authorized a = a
counted refunded a = a
counted declined a = pos 0
counted failed a = pos 0

abbrev pub held_by : Payment → ℤ
held_by p = counted p.status p.amount

-- The money held over all the rows: authorizations, less refunds, which are negative rows.
pub net : List Payment → ℤ
net [] = pos 0
net (p ∷ ps) = held_by p +ℤ net ps

pub net-append : (rows : List Payment) (p : Payment) → net (rows ++ p ∷ []) ≡ net rows +ℤ held_by p
unfolding net
net-append [] p = omega int_laws
net-append (x ∷ rows) p = grind (int_laws, net-append rows p)

-- Marking a row REFUNDED makes it count, if it did not count before.
pub net-mark_refunded :
    (i : String) (rows : List Payment) (p : Payment)
    → find? (has_payment_id i) rows ≡ some p
    → net (modify_first (has_payment_id i) mark_refunded rows) +ℤ held_by p ≡ net rows +ℤ p.amount
unfolding net
net-mark_refunded i [] p h = cc
net-mark_refunded i (x ∷ rows) p h = elim (Bool-cases (has_payment_id i x)) [
  | inl e ↦ let same : p ≡ x = ground arith in rw (e, same) (omega int_laws)
  | inr e ↦
      let ih = net-mark_refunded i rows p (ground arith) in
      rw e (omega (int_laws, ap pos_part ih, ap neg_part ih))
]

-- A row that is appended is found last.
pub find-append :
    (i : String) (rows : List Payment) (p x : Payment)
    → find? (has_payment_id i) rows ≡ some p
    → find? (has_payment_id i) (rows ++ x ∷ []) ≡ some p
find-append i [] p x h = cc
find-append i (y ∷ rows) p x h = ground (arith, find-append i rows p x)

pub find-mark_refunded :
    (i : String) (rows : List Payment) (p : Payment)
    → find? (has_payment_id i) rows ≡ some p
    → find? (has_payment_id i) (modify_first (has_payment_id i) mark_refunded rows)
      ≡ some (mark_refunded p)
find-mark_refunded i [] p h = cc
find-mark_refunded i (x ∷ rows) p h = ground (arith, find-mark_refunded i rows p)

pub find_added :
    (p : Payment) (rows : List Payment)
    → any (clashes p) rows ≡ false
    → find? (has_payment_id p.payment_id) (rows ++ p ∷ []) ≡ some p
find_added p [] h = rw eq_refl
find_added p (x ∷ rows) h = ground (arith, find_added p rows)
