-- ===== src/Staff.antt =====
-- apps/backend/src/modules/staff/staff.service.ts: the members of a business's staff.
use booking_platform_claude.Prelude.{
  ℕ, Bool, true, false, ◌&&◌, not, Option, none, some, List, ◌==◌, is_some,
}
use booking_platform_claude.Schema.{StaffMember, StaffRole, is_owner}
use booking_platform_claude.Store.{Db, Client, Env}
use booking_platform_claude.Store.Action.{
  Action, not_found, bad_request, conflict, pure, gets, or_throw, throw_if, ◌>>=◌, ◌>>◌, stored_row,
}
use booking_platform_claude.Business.{set_staff_members, insert_staff_member}
use booking_platform_claude.Branch.{branch_of, is_foreign_branch}

-- The roles that `InviteStaffDto` allows.
pub data InvitedRole : Type 0 where
  manager staff : InvitedRole

-- `InviteStaffDto`
pub record InviteStaffDto : Type 0 where
  pub phone : ℕ
  pub role : InvitedRole
  pub specialty : Option ℕ
  pub branch_id : Option ℕ

abbrev pub role_of : InvitedRole → StaffRole
role_of InvitedRole.manager = StaffRole.manager
role_of InvitedRole.staff = StaffRole.staff

-- `!staff || staff.businessId !== businessId`
abbrev pub is_foreign_member : ℕ → Option StaffMember → Bool
is_foreign_member business_id none = true
is_foreign_member business_id (some m) = not (m.business_id == business_id)

module _ (c : Client) (env : Env) where
  abbrev pub staff_member_of : ℕ → Db → Option StaffMember
  staff_member_of staff_member_id s =
      c.staff_member.find_first (λ m. m.id == staff_member_id) s.staff_members

  -- `findUnique` by `userId_businessId`
  abbrev pub membership_of : ℕ → ℕ → Db → Option StaffMember
  membership_of user_id business_id s =
      c.staff_member.find_first (λ m. m.user_id == user_id && m.business_id == business_id)
        s.staff_members

  abbrev pub new_staff_member : ℕ → ℕ → InviteStaffDto → StaffMember
  new_staff_member user_id business_id dto = record {
    id = env.uuid 0;
    user_id = user_id;
    business_id = business_id;
    branch_id = dto.branch_id;
    role = role_of dto.role;
    specialty = dto.specialty;
    is_active = true;
  }

  -- `if (dto.branchId) { ... }`
  abbrev pub check_branch : ℕ → Option ℕ → Action (Unit {0})
  check_branch business_id none = pure tt
  check_branch business_id (some branch_id) = do
    branch ← gets (branch_of c env branch_id)
    throw_if (is_foreign_branch business_id branch) not_found

  -- `invite`
  unfoldable pub invite : ℕ → InviteStaffDto → Action StaffMember
  invite business_id dto = do
    found ← gets (λ s. c.user.find_first (λ u. u.phone == dto.phone) s.users)
    user ← or_throw found bad_request
    existing ← gets (membership_of user.id business_id)
    throw_if (is_some existing) conflict
    check_branch business_id dto.branch_id
    insert_staff_member c env (new_staff_member user.id business_id dto)
    pure (new_staff_member user.id business_id dto)

  -- `findAll`, the included users left out
  unfoldable pub find_staff : ℕ → Action (List StaffMember)
  find_staff business_id =
      gets (λ s. c.staff_member.find_many (λ m. m.business_id == business_id) s.staff_members)

  unfoldable pub set_inactive : ℕ → Action StaffMember
  set_inactive staff_member_id s =
      stored_row
        (c.staff_member.update (λ m. m.id == staff_member_id) (λ m. record m { is_active = false })
          s.staff_members)
        set_staff_members s

  -- `deactivate`
  unfoldable pub deactivate : ℕ → ℕ → Action StaffMember
  deactivate business_id staff_member_id = do
    found ← gets (staff_member_of staff_member_id)
    throw_if (is_foreign_member business_id found) not_found
    member ← or_throw found not_found
    throw_if (is_owner member.role) bad_request
    set_inactive staff_member_id
