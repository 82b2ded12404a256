-- ===== src/Auth/Emails.antt =====
-- services/auth/app.py: no email has two users.
use delivery_time_prediction.Prelude.{
  ℕ, ◌≤◌, String, ◌≡◌, true, false, List, [], ◌∷◌, ◌++◌, arith, ◌∙◌, eq_iff, find?, any, some, none,
  length, select, Bool-cases, Option-cases, inl, inr, ap, refl, ◌⊎◌, concat,
}
use delivery_time_prediction.Core.Result.{Result, Exception, ok, err, http, integrity_error}
use delivery_time_prediction.Core.Session.{get_session-err, step_ok, step_err, lift, Session, ◌>>=◌}
use delivery_time_prediction.Core.DateTime.{aware}
use delivery_time_prediction.Core.Security.{hash_password}
use delivery_time_prediction.Auth.{
  Environment, SignupRequest, User, AuthDb, has_email, clashes, add_user, new_user, signup_block,
  signup, insert_user, profile_of, UserProfile,
}
use delivery_time_prediction.Auth.Login.{signup-accepted}

abbrev pub UniqueEmails : List User → Type 0
UniqueEmails rows = (email : String) → length (select (has_email email) rows) ≤ 1

select-no_clash :
    (email : String) (new : User) (rows : List User)
    → any (clashes new) rows ≡ false
    → (length (select (has_email email) (rows ++ new ∷ []))
        ≡ length (select (has_email email) rows))
      ⊎ ((length (select (has_email email) (rows ++ new ∷ [])) ≡ 1) × (new.email ≡ email))
select-no_clash email new [] h = ground (arith, eq_iff new.email email)
select-no_clash email new (x ∷ rows) h = ground (
  arith,
  eq_iff new.email email,
  eq_iff x.email email,
  eq_iff x.email new.email,
  select-no_clash email new rows,
)

Result-cases :
    {A : Type 0} (r : Result A) → ((a : A) × (r ≡ ok a)) ⊎ ((e : Exception) × (r ≡ err e))
Result-cases (ok a) = inl (a, refl)
Result-cases (err e) = inr (e, refl)

module _ (env : Environment) (request : SignupRequest) (user_id salt : String) (now : ℕ)
    (db : AuthDb) where
  -- What becomes of a sign-up whose email has no user yet, by the hash.
  abbrev insert : String → Session AuthDb UserProfile
  insert = insert_user env request user_id now

  abbrev hash : Session AuthDb String
  hash = lift (hash_password env.bcrypt request.password salt)

  insert_user-refused :
      (hashed : String)
      → any (clashes (new_user request user_id hashed now)) db.users ≡ true
      → insert hashed db ≡ (err integrity_error, db)
  unfolding add_user
  insert_user-refused hashed c =
      let new = new_user request user_id hashed now in
      step_err (add_user new) (λ _. lift (profile_of (env.isoformat (aware now)) new)) db db
        integrity_error (rw (add_user, c) refl)

  signup-hashed :
      (e : Exception)
      → find? (has_email request.email) db.users ≡ none
      → (hash >>= insert) db ≡ (err e, db)
      → signup env request user_id salt now db ≡ (err e, db)
  unfolding signup signup_block
  signup-hashed e f h = get_session-err _ db e (rw (signup_block, f) (ap (λ p. p.0) h))

  signup-taken :
      (old : User)
      → find? (has_email request.email) db.users ≡ some old
      → signup env request user_id salt now db
        ≡ (err (http 409 (concat ("Email " ∷ request.email ∷ " is already registered" ∷ []))), db)
  unfolding signup signup_block
  signup-taken old f = get_session-err _ db _ (rw (signup_block, f) refl)

  -- A sign-up is refused, and changes nothing, or it adds one user who clashes with no other.
  signup_cases :
      ((signup env request user_id salt now db).1 ≡ db)
      ⊎ ((hashed : String) × (any (clashes (new_user request user_id hashed now)) db.users ≡ false)
          × ((signup env request user_id salt now db).1
              ≡ record db { users = db.users ++ new_user request user_id hashed now ∷ [] }))
  unfolding hash_password
  signup_cases = elim (Option-cases (find? (has_email request.email) db.users)) [
    | inr (old, f) ↦ inl (ap (λ p. p.1) (signup-taken old f))
    | inl f ↦ elim (Result-cases (env.bcrypt.hashpw request.password salt)) [
      | inr (e, h) ↦
          inl
            (ap (λ p. p.1) (signup-hashed e f (step_err hash insert db db e (ap (λ r. (r, db)) h))))
      | inl (hashed, h) ↦
          elim (Bool-cases (any (clashes (new_user request user_id hashed now)) db.users)) [
            | inl c ↦ inl (
                ap (λ p. p.1)
                  (signup-hashed integrity_error f (
                    step_ok hash insert db db hashed (ap (λ r. (r, db)) h)
                    ∙ insert_user-refused hashed c)))
            | inr c ↦ inr (
              hashed,
              c,
              ap (λ p. p.1) (signup-accepted env request user_id salt hashed now db c h),
            )
          ]
    ]
  ]

  -- No sign-up, whatever becomes of it, gives an email to two users.
  pub signup-UniqueEmails :
      UniqueEmails db.users → UniqueEmails (signup env request user_id salt now db).1.users
  signup-UniqueEmails unique email = elim signup_cases [
    | inl same ↦ rw same (unique email)
    | inr (hashed, c, e) ↦
        let new = new_user request user_id hashed now in
        rw e (elim (select-no_clash email new db.users c) [
          | inl s ↦ rw s (unique email)
          | inr (s, _) ↦ rw s (omega arith)
        ])
  ]
