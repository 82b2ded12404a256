-- ===== src/Core/Session.antt =====
-- core/database.py: `get_session`, the transaction in which every handler touches its database.
use delivery_time_prediction.Prelude.{◌≡◌, ap, arith}
use delivery_time_prediction.Core.Result.{Exception, Result, ok, err}

-- The body of a `with get_session(...)` block, on the rows as the session sees them.
abbrev pub Session : Type 0 → Type 0 → Type 0
Session Db A = Db → Result A × Db

module _ {Db A : Type 0} where
  -- Commit when the body returns; roll back and raise again when it raises.
  unfoldable pub get_session : Session Db A → Db → Result A × Db
  get_session body db =
      let (r, db') = body db in elim r [ ok a ↦ (ok a, db') | err e ↦ (err e, db) ]

  abbrev pub lift : Result A → Session Db A
  lift r db = (r, db)

  abbrev pub pure : A → Session Db A
  pure a db = (ok a, db)

  abbrev pub raise : Exception → Session Db A
  raise e db = (err e, db)

infixl 5 ◌>>=◌ ◌>>◌
abbrev pub ◌>>=◌ : {Db A B : Type 0} → Session Db A → (A → Session Db B) → Session Db B
◌>>=◌ m f db = let (r, db') = m db in elim r [ ok a ↦ f a db' | err e ↦ (err e, db') ]

abbrev pub ◌>>◌ : {Db A B : Type 0} → Session Db A → Session Db B → Session Db B
m >> k = m >>= λ _. k

-- Reading rows, and assigning to them.
abbrev pub query : {Db A : Type 0} → (Db → A) → Session Db A
query f db = (ok (f db), db)

abbrev pub modify : {Db : Type 0} → (Db → Db) → Session Db (Unit {0})
modify f db = (ok tt, f db)

-- A block that raises leaves the database as it was, whatever it had written.
get_session-rollback :
    {Db A : Type 0} (body : Session Db A) (db : Db) (e : Exception)
    → (get_session body db).0 ≡ err e
    → (get_session body db).1 ≡ db
unfolding get_session
get_session-rollback body db e h = ground arith

pub get_session-err :
    {Db A : Type 0} (body : Session Db A) (db : Db) (e : Exception)
    → (body db).0 ≡ err e
    → get_session body db ≡ (err e, db)
unfolding get_session
get_session-err body db e h = ground arith

pub get_session-ok :
    {Db A : Type 0} (body : Session Db A) (db db' : Db) (a : A)
    → body db ≡ (ok a, db')
    → get_session body db ≡ (ok a, db')
unfolding get_session
get_session-ok body db db' a h = ground arith

-- One step of a block.
pub step_ok :
    {Db A B : Type 0} (m : Session Db A) (f : A → Session Db B) (db db' : Db) (a : A)
    → m db ≡ (ok a, db')
    → (m >>= f) db ≡ f a db'
step_ok m f db db' a h = ap (λ p. elim p.0 [ ok a ↦ f a p.1 | err e ↦ (err e, p.1) ]) h

pub step_err :
    {Db A B : Type 0} (m : Session Db A) (f : A → Session Db B) (db db' : Db) (e : Exception)
    → m db ≡ (err e, db')
    → (m >>= f) db ≡ (err e, db')
step_err m f db db' e h = ap (λ p. elim p.0 [ ok a ↦ f a p.1 | err e ↦ (err e, p.1) ]) h

-- What each step of a block keeps, the block keeps; a block that raises keeps everything.
pub bind_keeps :
    {Db A B : Type 0} (P : Db → Type 0) (m : Session Db A) (f : A → Session Db B) (db : Db)
    → P (m db).1
    → ((a : A) (db' : Db) → P db' → P (f a db').1)
    → P ((m >>= f) db).1
bind_keeps {Db} {A} {B} P m f db h k = go (m db) h
  where
    go :
        (x : Result A × Db)
        → P x.1
        → P (elim x.0 as (λ _. Result B × Db) [ ok a ↦ f a x.1 | err e ↦ (err e, x.1) ]).1
    go (ok a, db') h' = k a db' h'
    go (err e, db') h' = h'

pub get_session_keeps :
    {Db A : Type 0} (P : Db → Type 0) (body : Session Db A) (db : Db)
    → P db
    → P (body db).1
    → P (get_session body db).1
unfolding get_session
get_session_keeps {Db} {A} P body db h k = go (body db) k
  where
    go :
        (x : Result A × Db)
        → P x.1
        → P (elim x.0 as (λ _. Result A × Db) [ ok a ↦ (ok a, x.1) | err e ↦ (err e, db) ]).1
    go (ok a, db') k' = k'
    go (err e, db') k' = h
