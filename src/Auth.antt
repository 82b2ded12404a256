-- ===== src/Auth.antt =====
-- The auth service (services/auth/app.py, services/auth/models.py, contracts/auth.py). Identifiers,
-- salts, keys and readings of the clock that a handler makes are its arguments; times are whole
-- seconds. The column `updated_at`, which nothing reads, is left out.
pub mod Tenants
pub mod Login
pub mod Emails
mod Tests
use delivery_time_prediction.Prelude.{
  ℕ, String, Bool, ◌||◌, Option, none, some, List, [], ◌∷◌, ◌++◌, ◌==◌, find?, any, concat, inl,
  inr, if◌then◌else◌,
}
use delivery_time_prediction.Core.Result.{Result, ok, err, http, integrity_error}
use delivery_time_prediction.Core.Session.{Session, get_session, raise, pure, lift, ◌>>=◌, ◌>>◌}
use delivery_time_prediction.Core.DateTime.{DateTime, aware}
use delivery_time_prediction.Core.Security.{
  Bcrypt, Jwt, hash_password, verify_password, create_access_token, create_refresh_token,
  verify_refresh_token,
}
use delivery_time_prediction.Order.{UserRole, AuthContext}
use delivery_time_prediction.AuthMiddleware.{role_of, role_value, claim}

pub record SignupRequest : Type 0 where
  pub email : String
  pub password : String
  pub name : String
  pub role : UserRole

pub record LoginRequest : Type 0 where
  pub email : String
  pub password : String

pub record TokenResponse : Type 0 where
  pub access_token : String
  pub refresh_token : String
  pub token_type : String
  pub expires_in : ℕ

pub record UserProfile : Type 0 where
  pub user_id : String
  pub email : String
  pub name : String
  pub role : UserRole
  pub created_at : String

pub record User : Type 0 where
  pub id : String
  pub email : String
  pub name : String
  pub password_hash : String
  pub role : String
  pub created_at : ℕ

pub record Tenant : Type 0 where
  pub id : String
  pub tenant_id : String
  pub name : String
  pub email : String
  pub api_key : String
  pub api_secret : String
  pub quota_limit_per_day : ℕ
  pub is_active : ℕ
  pub created_at : ℕ

pub record AuthDb : Type 0 where
  pub users : List User
  pub tenants : List Tenant

abbrev pub has_email : String → User → Bool
has_email email u = u.email == email

abbrev pub has_id : String → User → Bool
has_id i u = u.id == i

-- The UNIQUE columns of `users`.
abbrev pub clashes : User → User → Bool
clashes new old = has_id new.id old || has_email new.email old

-- `session.add(user)` and `session.flush()`
pub add_user : User → Session AuthDb (Unit {0})
add_user u db =
    if any (clashes u) db.users
    then (err integrity_error, db)
    else (ok tt, record db { users = db.users ++ u ∷ [] })

abbrev pub new_user : SignupRequest → String → String → ℕ → User
new_user request user_id password_hash now = record {
  id = user_id;
  email = request.email;
  name = request.name;
  password_hash = password_hash;
  role = role_value request.role;
  created_at = now;
}

-- `UserProfile(...)` of a row, whose time of creation reads `created_at`.
abbrev pub profile_of : String → User → Result UserProfile
profile_of created_at user = elim (role_of user.role) [
  | err e ↦ err e
  | ok role ↦ ok (record {
    user_id = user.id;
    email = user.email;
    name = user.name;
    role = role;
    created_at = created_at;
  })
]

-- What the service takes from outside: `fetch` is what a DateTime column gives back, `isoformat` the
-- method of datetime.
pub record Environment : Type 0 where
  pub bcrypt : Bcrypt
  pub jwt : Jwt
  pub jwt_secret_key : String
  pub fetch : ℕ → DateTime
  pub isoformat : DateTime → String

module _ (env : Environment) where
  -- The new row, from the hash on, and its profile.
  abbrev pub insert_user : SignupRequest → String → ℕ → String → Session AuthDb UserProfile
  insert_user request user_id now password_hash =
      let user = new_user request user_id password_hash now in
      add_user user >> lift (profile_of (env.isoformat (aware now)) user)

  -- The `with` block of `signup`.
  pub signup_block : SignupRequest → String → String → ℕ → Session AuthDb UserProfile
  signup_block request user_id salt now db = elim (find? (has_email request.email) db.users) [
    | some existing ↦
        raise (http 409 (concat ("Email " ∷ request.email ∷ " is already registered" ∷ []))) db
    | none ↦
        (lift (hash_password env.bcrypt request.password salt) >>= insert_user request user_id now)
          db
  ]

  -- POST /auth/signup
  pub signup : SignupRequest → String → String → ℕ → AuthDb → Result UserProfile × AuthDb
  signup request user_id salt now = get_session (signup_block request user_id salt now)

  abbrev pub tokens_for : User → ℕ → ℕ → TokenResponse
  tokens_for user access_now refresh_now = record {
    access_token = create_access_token env.jwt env.jwt_secret_key user.id user.role none access_now;
    refresh_token = create_refresh_token env.jwt env.jwt_secret_key user.id refresh_now;
    token_type = "bearer";
    expires_in = 900;
  }

  -- The `with` block of `login`, with the times at which the two tokens are made.
  pub login_block : LoginRequest → ℕ → ℕ → Session AuthDb TokenResponse
  login_block request access_now refresh_now db = elim (find? (has_email request.email) db.users) [
    | none ↦ raise (http 401 "Invalid email or password") db
    | some user ↦
        (do
          valid ← lift (verify_password env.bcrypt request.password user.password_hash)
          if valid
              then pure (tokens_for user access_now refresh_now)
              else raise (http 401 "Invalid email or password"))
          db
  ]

  -- POST /auth/login
  pub login : LoginRequest → ℕ → ℕ → AuthDb → Result TokenResponse × AuthDb
  login request access_now refresh_now = get_session (login_block request access_now refresh_now)

  -- The `with` block of `refresh`.
  pub refresh_block : String → ℕ → ℕ → Session AuthDb TokenResponse
  refresh_block user_id access_now refresh_now db = elim (find? (has_id user_id) db.users) [
    | none ↦ raise (http 401 "User not found") db
    | some user ↦ pure (tokens_for user access_now refresh_now) db
  ]

  -- POST /auth/refresh, where the token is verified at `now`.
  pub refresh : String → ℕ → ℕ → ℕ → AuthDb → Result TokenResponse × AuthDb
  refresh refresh_token now access_now refresh_now db =
      elim (verify_refresh_token env.jwt env.jwt_secret_key now refresh_token) [
        | inl e ↦ (err (http 401 e), db)
        | inr payload ↦ elim (claim "sub" payload.sub) [
          | err e ↦ (err e, db)
          | ok user_id ↦ get_session (refresh_block user_id access_now refresh_now) db
        ]
      ]

  -- GET /auth/me
  pub get_profile : AuthContext → AuthDb → Result UserProfile × AuthDb
  get_profile auth = get_session λ db. elim (find? (has_id auth.user_id) db.users) [
    | none ↦ raise (http 404 "User not found") db
    | some user ↦ lift (profile_of (env.isoformat (env.fetch user.created_at)) user) db
  ]
