-- ===== src/Auth/Tenants.antt =====
-- services/auth/app.py: tenants and their API keys. The rows that a list shows come in the order that
-- `order_by` puts them in.
pub mod Keys
use delivery_time_prediction.Prelude.{
  ℕ, String, Bool, true, false, not, ◌||◌, ◌&&◌, Option, none, some, List, [], ◌∷◌, ◌++◌, ◌==◌, map,
  find?, any, concat, if◌then◌else◌, nat_eq, ◌⊎◌,
}
use delivery_time_prediction.Core.Result.{
  Result, ok, err, http, integrity_error, ◌>>=◌ as result_bind,
}
use delivery_time_prediction.Core.Session.{Session, get_session, raise, pure, query, ◌>>=◌, ◌>>◌}
use delivery_time_prediction.Core.DateTime.{aware}
use delivery_time_prediction.Core.Security.{Claims, generate_api_key_pair}
use delivery_time_prediction.Order.{admin, AuthContext}
use delivery_time_prediction.AuthMiddleware.{require_role}
use delivery_time_prediction.Auth.{Environment, Tenant, AuthDb}

pub record CreateTenantRequest : Type 0 where
  pub name : String
  pub email : String
  pub quota_limit_per_day : ℕ

pub record TenantResponse : Type 0 where
  pub tenant_id : String
  pub name : String
  pub email : String
  pub api_key : String
  pub api_secret : Option String
  pub quota_limit_per_day : ℕ
  pub is_active : Bool
  pub created_at : String

-- What GET /auth/internal/verify-api-key answers.
pub record KeyResponse : Type 0 where
  pub tenant_id : String
  pub api_secret : String
  pub quota_limit_per_day : ℕ

-- What uuid4, `secrets` and the clock give to one call.
pub record TenantDraw : Type 0 where
  pub id : String
  pub tenant_id : String
  pub hex : String
  pub urlsafe : String
  pub now : ℕ

-- The UNIQUE columns of `tenants`.
abbrev pub clashes : Tenant → Tenant → Bool
clashes new old = old.id == new.id || (old.tenant_id == new.tenant_id || old.api_key == new.api_key)

-- `session.add(tenant)` and `session.flush()`
pub add_tenant : Tenant → Session AuthDb (Unit {0})
add_tenant t db =
    if any (clashes t) db.tenants
    then (err integrity_error, db)
    else (ok tt, record db { tenants = db.tenants ++ t ∷ [] })

abbrev pub new_tenant : CreateTenantRequest → TenantDraw → Tenant
new_tenant request draw = record {
  id = draw.id;
  tenant_id = draw.tenant_id;
  name = request.name;
  email = request.email;
  api_key = (generate_api_key_pair draw.hex draw.urlsafe).0;
  api_secret = (generate_api_key_pair draw.hex draw.urlsafe).1;
  quota_limit_per_day = request.quota_limit_per_day;
  is_active = 1;
  created_at = draw.now;
}

-- `TenantResponse(...)` of a row.
abbrev pub tenant_response : Option String → String → Tenant → TenantResponse
tenant_response api_secret created_at t = record {
  tenant_id = t.tenant_id;
  name = t.name;
  email = t.email;
  api_key = t.api_key;
  api_secret = api_secret;
  quota_limit_per_day = t.quota_limit_per_day;
  is_active = not (nat_eq t.is_active 0);
  created_at = created_at;
}

abbrev pub has_tenant_id : String → Tenant → Bool
has_tenant_id i t = t.tenant_id == i

abbrev pub has_active_key : String → Tenant → Bool
has_active_key api_key t = t.api_key == api_key && nat_eq t.is_active 1

-- The dependency `require_role(UserRole.ADMIN)`, on the caller that `get_current_user` found.
unfoldable pub for_admin :
    {A : Type 0} → AuthContext → (AuthDb → Result A × AuthDb) → AuthDb → Result A × AuthDb
for_admin auth handler db = elim (require_role (admin ∷ []) auth) [
  | err e ↦ (err e, db)
  | ok _ ↦ handler db
]

module _ (env : Environment) where
  -- POST /auth/tenants
  pub create_tenant :
      CreateTenantRequest → TenantDraw → AuthContext → AuthDb → Result TenantResponse × AuthDb
  create_tenant request draw auth =
      let tenant = new_tenant request draw in
      for_admin auth (
        get_session (
          add_tenant tenant
          >> pure
              (tenant_response (some tenant.api_secret) (env.isoformat (aware draw.now)) tenant)))

  abbrev pub masked : Tenant → TenantResponse
  masked t = tenant_response none (env.isoformat (env.fetch t.created_at)) t

  -- GET /auth/tenants
  pub list_tenants :
      (List Tenant → List Tenant) → AuthContext → AuthDb → Result (List TenantResponse) × AuthDb
  list_tenants order_by auth =
      for_admin auth (get_session (query λ db. map masked (order_by db.tenants)))

  -- GET /auth/tenants/{tenant_id}
  pub get_tenant : String → AuthContext → AuthDb → Result TenantResponse × AuthDb
  get_tenant tenant_id auth = for_admin auth (
      get_session λ db. elim (find? (has_tenant_id tenant_id) db.tenants) [
        | none ↦ raise (http 404 (concat ("Tenant " ∷ tenant_id ∷ " not found" ∷ []))) db
        | some t ↦ pure (masked t) db
      ])

-- GET /auth/internal/verify-api-key
pub verify_api_key : String → AuthDb → Result KeyResponse × AuthDb
verify_api_key api_key = get_session λ db. elim (find? (has_active_key api_key) db.tenants) [
  | none ↦ raise (http 401 "Invalid or inactive API key") db
  | some t ↦
      pure
        (record {
          tenant_id = t.tenant_id;
          api_secret = t.api_secret;
          quota_limit_per_day = t.quota_limit_per_day;
        })
        db
]
