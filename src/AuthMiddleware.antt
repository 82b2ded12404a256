-- ===== src/AuthMiddleware.antt =====
-- core/auth_middleware.py: from a bearer token to the caller. `verify_access_token` is
-- any function that raises ValueError with a text or returns the claims of the token, as the one of
-- core/security.py does.
pub mod Agree
pub mod Roles
mod Tests
use delivery_time_prediction.Prelude.{
  String, Bool, true, false, ◌⊎◌, inl, inr, Option, none, some, List, [], ◌∷◌, ◌==◌, any, concat,
  if◌then◌else◌,
}
use delivery_time_prediction.Core.Result.{Result, ok, err, http, key_error, value_error, ◌>>=◌}
use delivery_time_prediction.Core.Security.{Claims}
use delivery_time_prediction.Order.{UserRole, customer, admin, merchant, AuthContext}

-- `UserRole(s)`
pub role_of : String → Result UserRole
role_of s =
    if s == "customer"
    then ok customer
    else if s == "admin"
    then ok admin
    else if s == "merchant"
    then ok merchant
    else err value_error

abbrev pub role_value : UserRole → String
role_value customer = "customer"
role_value admin = "admin"
role_value merchant = "merchant"

-- `payload[k]`
abbrev pub claim : String → Option String → Result String
claim k none = err (key_error k)
claim k (some v) = ok v

-- `AuthContext(user_id=payload["sub"], role=UserRole(payload["role"]), ...)`
pub context_of : Claims → Result AuthContext
context_of c = do
  user_id ← claim "sub" c.sub
  name ← claim "role" c.role
  role ← role_of name
  ok (record { user_id = user_id; role = role; tenant_id = c.tenant_id })

abbrev pub missing_token : String
missing_token = "Missing authorization header. Send: Authorization: Bearer <token>"

module _ (verify_access_token : String → String ⊎ Claims) where
  pub get_current_user : Option String → Result AuthContext
  get_current_user none = err (http 401 missing_token)
  get_current_user (some token) = elim (verify_access_token token) [
    | inl e ↦ err (http 401 e)
    | inr payload ↦ context_of payload
  ]

  pub get_optional_user : Option String → Result (Option AuthContext)
  get_optional_user none = ok none
  get_optional_user (some token) = elim (verify_access_token token) [
    | inl e ↦ ok none
    | inr payload ↦ elim (context_of payload) [
      | ok a ↦ ok (some a)
      | err e ↦ elim e [ value_error ↦ ok none | e' ↦ err e' ]
    ]
  ]

abbrev pub same_role : UserRole → UserRole → Bool
same_role r s = role_value r == role_value s

abbrev comma_separated : List UserRole → String
comma_separated [] = ""
comma_separated (r ∷ []) = role_value r
comma_separated (r ∷ s ∷ rs) = concat (role_value r ∷ ", " ∷ comma_separated (s ∷ rs) ∷ [])

-- `_role_checker` of `require_role(*allowed_roles)`, on the caller that `get_current_user` found.
pub require_role : List UserRole → AuthContext → Result AuthContext
require_role allowed_roles auth =
    if any (same_role auth.role) allowed_roles
    then ok auth
    else err (
        http 403 (
          concat
            ("Insufficient permissions. Required role: " ∷ comma_separated allowed_roles ∷ [])))
