-- ===== src/Guards.antt =====
-- The guards that app.module.ts registers, in its order: apps/backend/src/modules/auth/guards,
-- auth/strategies/jwt.strategy.ts and business/guards/business-role.guard.ts. What passport-jwt makes
-- of the bearer token, the user's identifier or nothing, is an argument; the rate limit is a library.
pub mod Admitted
use booking_platform_claude.Prelude.{
  ℕ, Bool, true, false, ◌||◌, not, Option, none, some, List, [], ◌∷◌, any, ◌==◌, if◌then◌else◌,
}
use booking_platform_claude.Schema.{GlobalRole, User, StaffMember, StaffRole}
use booking_platform_claude.Store.{Db, Client, Env}
use booking_platform_claude.Store.Action.{
  Action, unauthorized, forbidden, pure, throw, gets, or_throw, throw_if, ◌>>=◌, ◌>>◌,
}
use booking_platform_claude.Auth.{is_inactive}
use booking_platform_claude.Staff.{membership_of}

-- `AuthenticatedRequestUser`
pub record AuthenticatedUser : Type 0 where
  pub id : ℕ
  pub role : GlobalRole

-- What the decorators `@Public`, `@Roles` and `@BusinessRoles` say of a route.
pub record Access : Type 0 where
  pub is_public : Bool
  pub roles : List GlobalRole
  pub business_roles : List StaffRole

abbrev pub is_admin : GlobalRole → Bool
is_admin GlobalRole.admin = true
is_admin _ = false

abbrev pub role_eq : GlobalRole → GlobalRole → Bool
role_eq GlobalRole.user GlobalRole.user = true
role_eq GlobalRole.admin GlobalRole.admin = true
role_eq _ _ = false

abbrev pub staff_role_eq : StaffRole → StaffRole → Bool
staff_role_eq StaffRole.owner StaffRole.owner = true
staff_role_eq StaffRole.manager StaffRole.manager = true
staff_role_eq StaffRole.staff StaffRole.staff = true
staff_role_eq _ _ = false

-- `!membership || !membership.isActive || !requiredRoles.includes(membership.role)`
abbrev pub lacks_role : List StaffRole → Option StaffMember → Bool
lacks_role roles none = true
lacks_role roles (some m) = not m.is_active || not (any (staff_role_eq m.role) roles)

module _ (c : Client) (env : Env) where
  abbrev pub user_by_id : ℕ → Db → Option User
  user_by_id id s = c.user.find_first (λ u. u.id == id) s.users

  -- `JwtStrategy.validate`
  unfoldable pub validate : ℕ → Action AuthenticatedUser
  validate sub = do
    found ← gets (user_by_id sub)
    throw_if (is_inactive found) unauthorized
    user ← or_throw found unauthorized
    pure (record { id = user.id; role = user.global_role })

  -- `JwtAuthGuard.canActivate`, with the user it leaves in the request
  unfoldable pub jwt_guard : Bool → Option ℕ → Action (Option AuthenticatedUser)
  jwt_guard true sub = pure none
  jwt_guard false none = throw unauthorized
  jwt_guard false (some sub) = do user ← validate sub; pure (some user)

  -- `RolesGuard.canActivate`
  unfoldable pub roles_guard : List GlobalRole → Option AuthenticatedUser → Action (Unit {0})
  roles_guard [] user = pure tt
  roles_guard (r ∷ rs) none = throw forbidden
  roles_guard (r ∷ rs) (some user) = throw_if (not (any (role_eq user.role) (r ∷ rs))) forbidden

  abbrev pub check_membership : List StaffRole → Option ℕ → ℕ → Action (Unit {0})
  check_membership roles none user_id = throw forbidden
  check_membership roles (some business_id) user_id = do
    membership ← gets (membership_of c env user_id business_id)
    throw_if (lacks_role roles membership) forbidden

  -- `BusinessRoleGuard.canActivate`, with the business of the path
  unfoldable pub business_role_guard :
      List StaffRole → Option ℕ → Option AuthenticatedUser → Action (Unit {0})
  business_role_guard [] business_id user = pure tt
  business_role_guard (r ∷ rs) business_id none = throw forbidden
  business_role_guard (r ∷ rs) business_id (some user) =
      if is_admin user.role then pure tt else check_membership (r ∷ rs) business_id user.id

  -- The guards in the order of `AppModule`.
  unfoldable pub admit : Access → Option ℕ → Option ℕ → Action (Option AuthenticatedUser)
  admit access business_id sub = do
    user ← jwt_guard access.is_public sub
    roles_guard access.roles user
    business_role_guard access.business_roles business_id user
    pure user
