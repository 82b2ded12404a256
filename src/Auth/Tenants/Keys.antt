-- ===== src/Auth/Tenants/Keys.antt =====
-- services/auth/app.py: what becomes of the key and the secret of a tenant.
use delivery_time_prediction.Prelude.{
  String, ◌≡◌, ◌≢◌, ◌↔◌, refl, true, false, some, none, List, [], ◌∷◌, ◌++◌, arith, eq_refl, find?,
  any, All, map, nat_eq,
}
use delivery_time_prediction.Core.Result.{ok, err}
use delivery_time_prediction.Core.Session.{get_session-ok, step_ok, pure}
use delivery_time_prediction.Core.DateTime.{aware}
use delivery_time_prediction.Core.Security.{compute_hmac_signature, verify_hmac_signature}
use delivery_time_prediction.Core.Security.Tokens.{verify_hmac_signature-compute_hmac_signature}
use delivery_time_prediction.Order.{AuthContext, admin}
use delivery_time_prediction.AuthMiddleware.{require_role}
use delivery_time_prediction.AuthMiddleware.Roles.{
  require_role-admin, require_role-other, forbidden,
}
use delivery_time_prediction.Auth.{Environment, Tenant, AuthDb}
use delivery_time_prediction.Auth.Tenants.{
  CreateTenantRequest, TenantResponse, KeyResponse, TenantDraw, clashes, add_tenant, new_tenant,
  tenant_response, has_active_key, create_tenant, list_tenants, masked, verify_api_key, for_admin,
}

find-new_key :
    (new : Tenant) (rows : List Tenant)
    → nat_eq new.is_active 1 ≡ true
    → any (clashes new) rows ≡ false
    → find? (has_active_key new.api_key) (rows ++ new ∷ []) ≡ some new
find-new_key new [] active h = ground (arith, eq_refl new.api_key)
find-new_key new (x ∷ rows) active h = ground (arith, find-new_key new rows)

map-masked :
    (env : Environment) (rows : List Tenant)
    → All (λ r. r.api_secret ≡ none) (map (masked env) rows)
map-masked env [] = tt
map-masked env (t ∷ rows) = (refl, map-masked env rows)

module _ (env : Environment) (request : CreateTenantRequest) (draw : TenantDraw)
    (auth : AuthContext) (db : AuthDb) where
  abbrev pub tenant : Tenant
  tenant = new_tenant request draw

  abbrev pub with_tenant : AuthDb
  with_tenant = record db { tenants = db.tenants ++ tenant ∷ [] }

  abbrev pub response : TenantResponse
  response = tenant_response (some tenant.api_secret) (env.isoformat (aware draw.now)) tenant

  create_tenant-accepted :
      require_role (admin ∷ []) auth ≡ ok auth
      → any (clashes tenant) db.tenants ≡ false
      → create_tenant env request draw auth db ≡ (ok response, with_tenant)
  unfolding create_tenant add_tenant for_admin
  create_tenant-accepted r c =
      rw (create_tenant, for_admin, r)
        (get_session-ok _ db with_tenant response (
          step_ok (add_tenant tenant) (λ _. pure response) db with_tenant tt
            (rw (add_tenant, c) refl)))

  abbrev pub key_response : KeyResponse
  key_response = record {
    tenant_id = draw.tenant_id;
    api_secret = tenant.api_secret;
    quota_limit_per_day = request.quota_limit_per_day;
  }

  -- An admin can create a tenant whose identifiers and key are new, and is told its key and its secret.
  -- The key then leads GET /auth/internal/verify-api-key to that tenant and to the same secret, under
  -- which a header verifies for a body exactly if it is the signature of that body by the secret; no
  -- list of tenants that an admin gets shows a secret. A caller who is not an admin gets 403 for
  -- either request, and changes nothing.
  pub verify_api_key-create_tenant :
      (order_by : List Tenant → List Tenant) (hexdigest : String → String → String)
      (body header : String) (other : AuthContext)
      → auth.role ≡ admin
      → other.role ≢ admin
      → any (clashes tenant) db.tenants ≡ false
      → (create_tenant env request draw auth db ≡ (ok response, with_tenant))
        × (response.api_secret ≡ some key_response.api_secret)
        × (verify_api_key response.api_key with_tenant ≡ (ok key_response, with_tenant))
        × ((verify_hmac_signature hexdigest key_response.api_secret body (some header) ≡ true)
            ↔ (some header ≡ some (compute_hmac_signature hexdigest tenant.api_secret body)))
        × ((rows : List TenantResponse) × (list_tenants env order_by auth with_tenant
              ≡ (ok rows, with_tenant))
            × All (λ r. r.api_secret ≡ none) rows)
        × (create_tenant env request draw other db ≡ (err forbidden, db))
        × (list_tenants env order_by other db ≡ (err forbidden, db))
  unfolding verify_api_key list_tenants create_tenant for_admin
  verify_api_key-create_tenant order_by hexdigest body header other is_admin not_admin c =
      let allowed = require_role-admin auth is_admin in
      let refused = require_role-other other not_admin in
      (
        create_tenant-accepted allowed c,
        refl,
        get_session-ok _ with_tenant with_tenant key_response
            (rw (find-new_key tenant db.tenants refl c) refl),
        verify_hmac_signature-compute_hmac_signature hexdigest tenant.api_secret body (some header),
        (
          map (masked env) (order_by with_tenant.tenants),
          rw (list_tenants, for_admin, allowed) (get_session-ok _ with_tenant with_tenant _ refl),
          map-masked env (order_by with_tenant.tenants),
        ),
        rw (create_tenant, for_admin, refused) refl,
        rw (list_tenants, for_admin, refused) refl,
      )
