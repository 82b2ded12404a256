-- ===== src/AuthMiddleware/Agree.antt =====
-- core/auth_middleware.py: the two ways to find the caller agree, and find whom the claims name.
use delivery_time_prediction.Prelude.{String, ◌≡◌, ◌↔◌, refl, ◌⊎◌, inr, Option, none, some, arith}
use delivery_time_prediction.Core.Result.{ok}
use delivery_time_prediction.Core.Security.{Claims}
use delivery_time_prediction.Order.{UserRole, customer, admin, merchant, AuthContext}
use delivery_time_prediction.AuthMiddleware.{
  role_of, role_value, context_of, get_current_user, get_optional_user,
}

-- The optional dependency finds a caller exactly when the strict one does, and the same one.
pub get_optional_user-get_current_user :
    (verify_access_token : String → String ⊎ Claims) (credentials : Option String) (a : AuthContext)
    → (get_optional_user verify_access_token credentials ≡ ok (some a))
      ↔ (get_current_user verify_access_token credentials ≡ ok a)
unfolding get_optional_user get_current_user
get_optional_user-get_current_user verify_access_token none a = (λ h. cc, λ h. cc)
get_optional_user-get_current_user verify_access_token (some token) a =
    (λ h. ground arith, λ h. ground arith)

pub role_of-role_value : (r : UserRole) → role_of (role_value r) ≡ ok r
unfolding role_of
role_of-role_value customer = refl
role_of-role_value admin = refl
role_of-role_value merchant = refl

pub context_of-role_value :
    (c : Claims) (user_id : String) (r : UserRole)
    → c.sub ≡ some user_id
    → c.role ≡ some (role_value r)
    → context_of c ≡ ok (record { user_id = user_id; role = r; tenant_id = c.tenant_id })
unfolding context_of
context_of-role_value c user_id r s e = rw (context_of, s, e, role_of-role_value r) refl

pub get_current_user-verified :
    (verify_access_token : String → String ⊎ Claims) (token : String) (c : Claims)
    → verify_access_token token ≡ inr c
    → get_current_user verify_access_token (some token) ≡ context_of c
unfolding get_current_user
get_current_user-verified verify_access_token token c h = rw (get_current_user, h) refl
