-- ===== src/AuthMiddleware/Roles.antt =====
-- core/auth_middleware.py: whom `require_role(UserRole.ADMIN)` lets through.
use delivery_time_prediction.Prelude.{◌≡◌, ◌≢◌, refl, [], ◌∷◌, concat}
use delivery_time_prediction.Core.Result.{Exception, ok, err, http}
use delivery_time_prediction.Order.{UserRole, customer, admin, merchant, AuthContext}
use delivery_time_prediction.AuthMiddleware.{require_role}

abbrev pub forbidden : Exception
forbidden = http 403 (concat ("Insufficient permissions. Required role: " ∷ "admin" ∷ []))

pub require_role-admin :
    (auth : AuthContext) → auth.role ≡ admin → require_role (admin ∷ []) auth ≡ ok auth
unfolding require_role
require_role-admin auth h = rw (require_role, h) refl

pub require_role-other :
    (auth : AuthContext) → auth.role ≢ admin → require_role (admin ∷ []) auth ≡ err forbidden
unfolding require_role
require_role-other auth h = go auth.role refl
  where
    go : (r : UserRole) → auth.role ≡ r → require_role (admin ∷ []) auth ≡ err forbidden
    go customer e = rw (require_role, e) refl
    go merchant e = rw (require_role, e) refl
    go admin e = absurd (h e)
