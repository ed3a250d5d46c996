-- ===== src/Guards/Admitted.antt =====
-- Whom the guards of apps/backend/src/app.module.ts let through.
use booking_platform_claude.Prelude.{
  ℕ, ◌≡◌, refl, sym, ap, Bool, true, false, ◌⊎◌, inl, inr, Option, none, some, List, [], ◌∷◌, any,
  In, ◌==◌, ◌&&◌, subst, Bool-cases, ==_iff, arith,
}
use booking_platform_claude.Schema.{User, GlobalRole, is_account_active, StaffMember, StaffRole}
use booking_platform_claude.Store.{Db, Client, Env}
use booking_platform_claude.Store.Action.{unauthorized, forbidden}
use booking_platform_claude.Store.Reads.{
  Reads, >>=-Reads, guarded-Reads, found-Reads, choice-Reads, map-Reads,
}
use booking_platform_claude.Auth.{is_inactive}
use booking_platform_claude.Staff.{membership_of}
use booking_platform_claude.Guards.{
  AuthenticatedUser, Access, is_admin, role_eq, staff_role_eq, lacks_role, user_by_id, validate,
  jwt_guard, roles_guard, check_membership, business_role_guard, admit,
}

-- A row of an active account, whose identifier the token carries.
pub record IsAccount (sub : ℕ) (s : Db) (user : AuthenticatedUser) : Type 0 where
  pub row : User
  pub place : In row s.users
  pub identifier : row.id ≡ sub
  pub active : is_account_active row.status ≡ true
  pub same : user ≡ record { id = row.id; role = row.global_role }

-- On a route that is not public there is a token, and its user is an active account.
unfoldable pub IsCaller : Bool → Option ℕ → Db → Option AuthenticatedUser → Type 0
IsCaller true sub s user = user ≡ none
IsCaller false none s user = ⊥
IsCaller false (some sub) s none = ⊥
IsCaller false (some sub) s (some user) = IsAccount sub s user

-- The caller has one of the roles, if the route names any.
unfoldable pub HasRole : List GlobalRole → Option AuthenticatedUser → Type 0
HasRole [] user = Unit
HasRole (r ∷ rs) none = ⊥
HasRole (r ∷ rs) (some user) = any (role_eq user.role) (r ∷ rs) ≡ true

-- An active membership of the business with one of the roles.
pub record IsMember (roles : List StaffRole) (business_id : Option ℕ) (user_id : ℕ) (s : Db)
    : Type 0 where
  pub row : StaffMember
  pub place : In row s.staff_members
  pub of_user : row.user_id ≡ user_id
  pub of_business : business_id ≡ some row.business_id
  pub active : row.is_active ≡ true
  pub role : any (staff_role_eq row.role) roles ≡ true

-- The caller is an administrator or such a member, if the route names roles.
unfoldable pub HasBusinessRole : List StaffRole → Option ℕ → Db → Option AuthenticatedUser → Type 0
HasBusinessRole [] business_id s user = Unit
HasBusinessRole (r ∷ rs) business_id s none = ⊥
HasBusinessRole (r ∷ rs) business_id s (some user) =
    (is_admin user.role ≡ true) ⊎ IsMember (r ∷ rs) business_id user.id s

pub record IsAllowed (access : Access) (business_id sub : Option ℕ) (s : Db)
    (user : Option AuthenticatedUser) : Type 0 where
  pub caller : IsCaller access.is_public sub s user
  pub role : HasRole access.roles user
  pub business_role : HasBusinessRole access.business_roles business_id s user

active_of : (u : User) → is_inactive (some u) ≡ false → is_account_active u.status ≡ true
active_of u h = ground arith

role_of_row :
    (roles : List StaffRole) (m : StaffMember)
    → lacks_role roles (some m) ≡ false
    → (m.is_active ≡ true) × (any (staff_role_eq m.role) roles ≡ true)
role_of_row roles m h = ground arith

both_equal : (a b x y : ℕ) → (a ≡ x) × (b ≡ y) → (a ≡ x) × (some y ≡ some b)
both_equal a b x y (e, f) = (e, ap some (sym f))

module _ (c : Client) (env : Env) where
  IsAccount-of :
      (sub : ℕ) (s : Db) (u : User)
      → user_by_id c env sub s ≡ some u
      → is_inactive (some u) ≡ false
      → IsAccount sub s (record { id = u.id; role = u.global_role })
  IsAccount-of sub s u found h =
      let (place, hit) = c.user.find_first_some (λ x. x.id == sub) s.users u found in
      record {
        row = u;
        place = place;
        identifier = (==_iff u.id sub).0 hit;
        active = active_of u h;
        same = refl;
      }

  validate-Reads : (sub : ℕ) (s : Db) → Reads (IsAccount sub s) (validate c env sub) s
  unfolding validate
  validate-Reads sub s =
      let found = user_by_id c env sub s in
      guarded-Reads (IsAccount sub s) (is_inactive found) unauthorized _ s (λ h.
        found-Reads (IsAccount sub s) found unauthorized _ s (λ u e. inl (
          record { id = u.id; role = u.global_role },
          refl,
          IsAccount-of sub s u e (subst (λ z. is_inactive z ≡ false) e h),
        )))

  jwt_guard-Reads :
      (is_public : Bool) (sub : Option ℕ) (s : Db)
      → Reads (IsCaller is_public sub s) (jwt_guard c env is_public sub) s
  unfolding jwt_guard IsCaller
  jwt_guard-Reads true sub s = inl (none, refl, refl)
  jwt_guard-Reads false none s = inr (unauthorized, refl)
  jwt_guard-Reads false (some sub) s =
      >>=-Reads (IsAccount sub s) (IsCaller false (some sub) s) (validate c env sub) _ s
        (validate-Reads sub s) (λ user h. inl (some user, refl, h))

  roles_guard-Reads :
      (roles : List GlobalRole) (user : Option AuthenticatedUser) (s : Db)
      → Reads (λ _. HasRole roles user) (roles_guard c env roles user) s
  unfolding roles_guard HasRole
  roles_guard-Reads [] user s = inl (tt, refl, tt)
  roles_guard-Reads (r ∷ rs) none s = inr (forbidden, refl)
  roles_guard-Reads (r ∷ rs) (some user) s = elim (Bool-cases (any (role_eq user.role) (r ∷ rs))) [
    | inl hit ↦ inl (tt, ground arith, hit)
    | inr miss ↦ inr (forbidden, ground arith)
  ]

  IsMember-of :
      (roles : List StaffRole) (business_id user_id : ℕ) (s : Db) (o : Option StaffMember)
      → membership_of c env user_id business_id s ≡ o
      → lacks_role roles o ≡ false
      → IsMember roles (some business_id) user_id s
  IsMember-of roles business_id user_id s none found h = cc
  IsMember-of roles business_id user_id s (some m) found h =
      let (place, hit) =
        c.staff_member.find_first_some (λ x. x.user_id == user_id && x.business_id == business_id)
          s.staff_members m found in
      let keys = both_equal m.user_id m.business_id user_id business_id (ground arith) in
      let rest = role_of_row roles m h in
      record {
        row = m;
        place = place;
        of_user = keys.0;
        of_business = keys.1;
        active = rest.0;
        role = rest.1;
      }

  check_membership-Reads :
      (roles : List StaffRole) (business_id : Option ℕ) (user_id : ℕ) (s : Db)
      → Reads
          (λ _. IsMember roles business_id user_id s)
          (check_membership c env roles business_id user_id)
          s
  check_membership-Reads roles none user_id s = inr (forbidden, refl)
  check_membership-Reads roles (some business_id) user_id s =
      let found = membership_of c env user_id business_id s in
      elim (Bool-cases (lacks_role roles found)) [
        | inl lacks ↦ inr (forbidden, ground arith)
        | inr has ↦ inl (tt, ground arith, IsMember-of roles business_id user_id s found refl has)
      ]

  business_role_guard-Reads :
      (roles : List StaffRole) (business_id : Option ℕ) (user : Option AuthenticatedUser) (s : Db)
      → Reads
          (λ _. HasBusinessRole roles business_id s user)
          (business_role_guard c env roles business_id user)
          s
  unfolding business_role_guard HasBusinessRole
  business_role_guard-Reads [] business_id user s = inl (tt, refl, tt)
  business_role_guard-Reads (r ∷ rs) business_id none s = inr (forbidden, refl)
  business_role_guard-Reads (r ∷ rs) business_id (some user) s =
      let allowed = HasBusinessRole (r ∷ rs) business_id s (some user) in
      choice-Reads (λ _. allowed) (is_admin user.role) _ _ s (λ h. inl (tt, refl, inl h))
        (λ _.
          map-Reads (λ _. IsMember (r ∷ rs) business_id user.id s) (λ _. allowed)
            (check_membership c env (r ∷ rs) business_id user.id) s (λ _ m. inr m)
            (check_membership-Reads (r ∷ rs) business_id user.id s))

  -- The guards let a request through with an account, a role and a membership as its route asks
  -- for, or throw, and write nothing.
  pub admit-Reads :
      (access : Access) (business_id sub : Option ℕ) (s : Db)
      → Reads (IsAllowed access business_id sub s) (admit c env access business_id sub) s
  unfolding admit
  admit-Reads access business_id sub s =
      >>=-Reads (IsCaller access.is_public sub s) (IsAllowed access business_id sub s)
        (jwt_guard c env access.is_public sub) _ s (jwt_guard-Reads access.is_public sub s)
        (λ user caller.
          >>=-Reads (λ _. HasRole access.roles user) (IsAllowed access business_id sub s)
            (roles_guard c env access.roles user) _ s (roles_guard-Reads access.roles user s)
            (λ _ role.
              >>=-Reads (λ _. HasBusinessRole access.business_roles business_id s user)
                (IsAllowed access business_id sub s)
                (business_role_guard c env access.business_roles business_id user) _ s
                (business_role_guard-Reads access.business_roles business_id user s)
                (λ _ business_role. inl (
                  user,
                  refl,
                  record { caller = caller; role = role; business_role = business_role },
                ))))
