-- ===== src/AuthMiddleware/Tests.antt =====
-- core/auth_middleware.py where every token is the name of an admin.
use delivery_time_prediction.Prelude.{String, ◌≡◌, ◌↔◌, refl, ◌⊎◌, inr, none, some, [], ◌∷◌}
use delivery_time_prediction.Core.Result.{ok}
use delivery_time_prediction.Core.Security.{Claims}
use delivery_time_prediction.Order.{AuthContext, admin, customer}
use delivery_time_prediction.AuthMiddleware.{
  get_current_user, get_optional_user, context_of, role_of, require_role,
}
use delivery_time_prediction.AuthMiddleware.Agree.{get_optional_user-get_current_user}

abbrev verify : String → String ⊎ Claims
verify token = inr (record {
  sub = some token;
  role = some "admin";
  tenant_id = none;
  token_type = some "access";
  iat = none;
  exp = none;
})

abbrev anna : AuthContext
anna = record { user_id = "anna"; role = admin; tenant_id = none }

get_optional_user-get_current_user_example :
    (get_optional_user verify (some "anna") ≡ ok (some anna))
    ↔ (get_current_user verify (some "anna") ≡ ok anna)
get_optional_user-get_current_user_example =
    get_optional_user-get_current_user verify (some "anna") anna

found : get_current_user verify (some "anna") ≡ ok anna
unfolding get_current_user context_of role_of
found = refl

allowed : require_role (customer ∷ admin ∷ []) anna ≡ ok anna
unfolding require_role
allowed = refl
