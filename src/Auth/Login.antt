-- ===== src/Auth/Login.antt =====
-- services/auth/app.py: a user who signed up can log in, and is who the token says.
use delivery_time_prediction.Prelude.{
  ap, ℕ, ◌+◌, ◌≤◌, ◌<◌, String, ◌≡◌, refl, true, false, none, some, List, [], ◌∷◌, ◌++◌, arith, ◌∙◌,
  eq_refl, find?, any,
}
use delivery_time_prediction.Core.Result.{ok}
use delivery_time_prediction.Core.Session.{get_session-ok, step_ok, lift}
use delivery_time_prediction.Core.DateTime.{aware}
use delivery_time_prediction.Core.Security.{
  hash_password, verify_password, access_claims, verify_access_token,
}
use delivery_time_prediction.Core.Security.Tokens.{Decodes, verify_access_token-create_access_token}
use delivery_time_prediction.Order.{AuthContext}
use delivery_time_prediction.AuthMiddleware.{role_value, get_current_user}
use delivery_time_prediction.AuthMiddleware.Agree.{
  role_of-role_value, context_of-role_value, get_current_user-verified,
}
use delivery_time_prediction.Auth.{
  Environment, SignupRequest, LoginRequest, TokenResponse, UserProfile, User, AuthDb, has_email,
  clashes, add_user, new_user, profile_of, insert_user, signup_block, signup, login_block, login,
  tokens_for,
}

-- Rows that do not clash with a new one do not have its email; the new one is then found.
pub find-no_clash :
    (new : User) (rows : List User)
    → any (clashes new) rows ≡ false
    → (find? (has_email new.email) rows ≡ none)
      × (find? (has_email new.email) (rows ++ new ∷ []) ≡ some new)
find-no_clash new [] h = (refl, ground (arith, eq_refl new.email))
find-no_clash new (x ∷ rows) h = ground (arith, find-no_clash new rows)

module _ (env : Environment) (request : SignupRequest) (user_id salt hashed : String) (now : ℕ)
    (db : AuthDb) where
  abbrev pub user : User
  user = new_user request user_id hashed now

  abbrev pub with_user : AuthDb
  with_user = record db { users = db.users ++ user ∷ [] }

  abbrev pub profile : UserProfile
  profile = record {
    user_id = user_id;
    email = request.email;
    name = request.name;
    role = request.role;
    created_at = env.isoformat (aware now);
  }

  pub signup-accepted :
      any (clashes user) db.users ≡ false
      → env.bcrypt.hashpw request.password salt ≡ ok hashed
      → signup env request user_id salt now db ≡ (ok profile, with_user)
  unfolding signup signup_block hash_password add_user
  signup-accepted c h = get_session-ok _ db with_user profile (
      rw (signup_block, (find-no_clash user db.users c).0)
        (step_ok (lift (hash_password env.bcrypt request.password salt))
            (insert_user env request user_id now) db db hashed (ap (λ r. (r, db)) h)
          ∙ step_ok (add_user user) (λ _. lift (profile_of (env.isoformat (aware now)) user)) db
              with_user tt (rw (add_user, c) refl)
          ∙ rw (profile_of, role_of-role_value request.role) refl))

  login-accepted :
      (request' : LoginRequest) (access_now refresh_now : ℕ) (db' : AuthDb) (u : User)
      → find? (has_email request'.email) db'.users ≡ some u
      → env.bcrypt.checkpw request'.password u.password_hash ≡ ok true
      → login env request' access_now refresh_now db'
        ≡ (ok (tokens_for env u access_now refresh_now), db')
  unfolding login login_block verify_password
  login-accepted request' access_now refresh_now db' u f h =
      get_session-ok _ db' db' _ (rw (login_block, f, verify_password, h) refl)

  abbrev pub later_user : AuthContext
  later_user = record { user_id = user_id; role = request.role; tenant_id = none }

  -- The access token made for the new user names that user, while it is good.
  user-identified :
      (access_now refresh_now later : ℕ)
      → Decodes env.jwt env.jwt_secret_key
          (access_claims user_id (role_value request.role) none access_now)
      → access_now ≤ later
      → later < access_now + 900
      → get_current_user
          (verify_access_token env.jwt env.jwt_secret_key later)
          (some (tokens_for env user access_now refresh_now).access_token)
        ≡ ok later_user
  user-identified access_now refresh_now later law from until =
      let verified =
        verify_access_token-create_access_token env.jwt env.jwt_secret_key user_id
          (role_value request.role) none access_now later law
        ∙ ground arith in
      get_current_user-verified _ _
        (access_claims user_id (role_value request.role) none access_now) verified
      ∙ context_of-role_value _ user_id request.role refl refl

  -- A user whose email and identifier are new signs up, with the role that was asked for; a login
  -- with the same password then returns a token by which the middleware finds that user and role,
  -- from its creation on and for fifteen minutes. bcrypt accepts the password that it hashed, and
  -- PyJWT decodes what it encoded.
  pub login-signup :
      (access_now refresh_now later : ℕ)
      → any (clashes user) db.users ≡ false
      → env.bcrypt.hashpw request.password salt ≡ ok hashed
      → env.bcrypt.checkpw request.password hashed ≡ ok true
      → Decodes env.jwt env.jwt_secret_key
          (access_claims user_id (role_value request.role) none access_now)
      → access_now ≤ later
      → later < access_now + 900
      → (signup env request user_id salt now db ≡ (ok profile, with_user))
        × (tokens : TokenResponse) × (login env
              (record { email = request.email; password = request.password })
              access_now
              refresh_now
              with_user
            ≡ (ok tokens, with_user))
        × (get_current_user
              (verify_access_token env.jwt env.jwt_secret_key later)
              (some tokens.access_token)
            ≡ ok later_user)
  login-signup access_now refresh_now later c h v law from until = (
    signup-accepted c h,
    tokens_for env user access_now refresh_now,
    login-accepted _ access_now refresh_now with_user user (find-no_clash user db.users c).1 v,
    user-identified access_now refresh_now later law from until,
  )
