-- ===== src/Auth/Tests.antt =====
-- services/auth/app.py with one user, where a hash is the password and a token names its kind.
use delivery_time_prediction.Prelude.{
  String, ◌≡◌, ◌≢◌, ◌↔◌, refl, true, ◌==◌, if◌then◌else◌, inr, none, some, List, [], ◌∷◌, arith,
  All, concat,
}
use delivery_time_prediction.Core.Result.{ok, err, http}
use delivery_time_prediction.Core.Session.{get_session}
use delivery_time_prediction.Core.DateTime.{naive}
use delivery_time_prediction.Core.Security.{
  Claims, access_claims, refresh_claims, create_access_token, create_refresh_token,
  verify_access_token, verify_refresh_token, compute_hmac_signature, verify_hmac_signature,
}
use delivery_time_prediction.Core.Security.Tokens.{outcome, other_kind_refused}
use delivery_time_prediction.Order.{merchant, admin, AuthContext, customer}
use delivery_time_prediction.AuthMiddleware.{get_current_user}
use delivery_time_prediction.Auth.{
  Environment, SignupRequest, TokenResponse, User, AuthDb, signup_block, signup, login, new_user,
}
use delivery_time_prediction.Auth.Login.{login-signup, profile, with_user}
use delivery_time_prediction.Auth.Emails.{UniqueEmails, signup-UniqueEmails}
use delivery_time_prediction.Auth.Tenants.{
  CreateTenantRequest, TenantResponse, TenantDraw, create_tenant, list_tenants, verify_api_key,
}
use delivery_time_prediction.AuthMiddleware.Roles.{forbidden}
use delivery_time_prediction.Auth.Tenants.Keys.{
  verify_api_key-create_tenant, response, with_tenant, key_response, tenant,
}

abbrev claims_of : String → Claims
claims_of token =
    if token == "access" then access_claims "u1" "merchant" none 100 else refresh_claims "u1" 100

abbrev env : Environment
env = record {
  bcrypt = record { hashpw = λ p s. ok p; checkpw = λ p h. ok (p == h) };
  jwt = record {
    encode = λ c key. elim c.token_type [ none ↦ "none" | some t ↦ t ];
    decode = λ now token key. outcome now (claims_of token);
  };
  jwt_secret_key = "secret";
  fetch = naive;
  isoformat = λ t. "today";
}

abbrev request : SignupRequest
request = record {
  email = "shop@example.org";
  password = "long enough";
  name = "Shop";
  role = merchant;
}

abbrev old : User
old = new_user (record request { email = "old@example.org" }) "u0" "hash" 50

abbrev db : AuthDb
db = record { users = old ∷ []; tenants = [] }

login-signup_example :
    (signup env request "u1" "salt" 90 db ≡ (
      ok (profile env request "u1" "salt" "long enough" 90 db),
      with_user env request "u1" "salt" "long enough" 90 db,
    ))
    × (tokens : TokenResponse) × (login env
          (record { email = "shop@example.org"; password = "long enough" })
          100
          100
          (with_user env request "u1" "salt" "long enough" 90 db)
        ≡ (ok tokens, with_user env request "u1" "salt" "long enough" 90 db))
    × (get_current_user
          (verify_access_token env.jwt env.jwt_secret_key 999)
          (some tokens.access_token)
        ≡ ok (record { user_id = "u1"; role = merchant; tenant_id = none }))
login-signup_example =
    login-signup env request "u1" "salt" "long enough" 90 db 100 100 999 refl refl refl
      (λ now. refl) (omega arith) (omega arith)

signup-UniqueEmails_example : UniqueEmails (signup env request "u1" "salt" 90 db).1.users
signup-UniqueEmails_example =
    signup-UniqueEmails env request "u1" "salt" 90 db (λ email. ground arith)

other_kind_refused_example :
    ¬ (
      verify_access_token env.jwt "secret" 200 (create_refresh_token env.jwt "secret" "u1" 100)
      ≡ inr (claims_of "refresh"))
    × ¬ (
        verify_refresh_token env.jwt "secret" 200
          (create_access_token env.jwt "secret" "u1" "merchant" none 100)
        ≡ inr (claims_of "refresh"))
other_kind_refused_example =
    other_kind_refused env.jwt "secret" "u1" "merchant" none 100 200 (claims_of "refresh")
      (λ now. refl) (λ now. refl)

abbrev shop : CreateTenantRequest
shop = record { name = "Shop"; email = "shop@example.org"; quota_limit_per_day = 1000 }

abbrev draw : TenantDraw
draw = record { id = "i1"; tenant_id = "TENANT-1"; hex = "ab"; urlsafe = "cd"; now = 100 }

abbrev boss : AuthContext
boss = record { user_id = "boss"; role = admin; tenant_id = none }

abbrev shopper : AuthContext
shopper = record { user_id = "anna"; role = customer; tenant_id = none }

not_admin : shopper.role ≢ admin
not_admin e = cc

abbrev hexdigest : String → String → String
hexdigest secret payload = payload

verify_api_key-create_tenant_example :
    (create_tenant env shop draw boss db
      ≡ (ok (response env shop draw boss db), with_tenant env shop draw boss db))
    × ((response env shop draw boss db).api_secret
        ≡ some (key_response env shop draw boss db).api_secret)
    × (verify_api_key (response env shop draw boss db).api_key (with_tenant env shop draw boss db)
        ≡ (ok (key_response env shop draw boss db), with_tenant env shop draw boss db))
    × ((verify_hmac_signature hexdigest
            (key_response env shop draw boss db).api_secret
            "body"
            (some "sha256=body")
          ≡ true)
        ↔ (some "sha256=body"
            ≡ some (
                compute_hmac_signature hexdigest (tenant env shop draw boss db).api_secret "body")))
    × ((rows : List TenantResponse) × (list_tenants env
            (λ rows. rows)
            boss
            (with_tenant env shop draw boss db)
          ≡ (ok rows, with_tenant env shop draw boss db))
        × All (λ r. r.api_secret ≡ none) rows)
    × (create_tenant env shop draw shopper db ≡ (err forbidden, db))
    × (list_tenants env (λ rows. rows) shopper db ≡ (err forbidden, db))
verify_api_key-create_tenant_example =
    verify_api_key-create_tenant env shop draw boss db (λ rows. rows) hexdigest "body" "sha256=body"
      shopper refl not_admin refl

taken :
    signup env (record request { email = "old@example.org" }) "u1" "salt" 90 db
    ≡ (err (http 409 (concat ("Email " ∷ "old@example.org" ∷ " is already registered" ∷ []))), db)
unfolding signup signup_block get_session
taken = refl
