-- ===== src/Branch.antt =====
-- apps/backend/src/modules/branch/branch.service.ts: the branches of a business.
use booking_platform_claude.Prelude.{ℕ, ℤ, Bool, true, not, Option, none, some, List, ◌==◌}
use booking_platform_claude.Schema.{Branch}
use booking_platform_claude.Store.{Db, Client, Env}
use booking_platform_claude.Store.Action.{
  Action, not_found, pure, gets, or_throw, throw_if, ◌>>=◌, ◌>>◌, stored, stored_row,
}
use booking_platform_claude.Coupon.{or_old, or_old_option}

-- `CreateBranchDto`
pub record CreateBranchDto : Type 0 where
  pub name : ℕ
  pub address : ℕ
  pub latitude : ℤ
  pub longitude : ℤ
  pub phone : Option ℕ

-- `UpdateBranchDto`
pub record UpdateBranchDto : Type 0 where
  pub name : Option ℕ
  pub address : Option ℕ
  pub latitude : Option ℤ
  pub longitude : Option ℤ
  pub phone : Option ℕ

-- `!branch || branch.businessId !== businessId`
abbrev pub is_foreign_branch : ℕ → Option Branch → Bool
is_foreign_branch business_id none = true
is_foreign_branch business_id (some b) = not (b.business_id == business_id)

abbrev set_branches : List Branch → Db → Db
set_branches t s = record s { branches = t }

abbrev pub with_branch_changes : UpdateBranchDto → Branch → Branch
with_branch_changes dto b = record b {
  name = or_old dto.name b.name;
  address = or_old dto.address b.address;
  latitude = or_old dto.latitude b.latitude;
  longitude = or_old dto.longitude b.longitude;
  phone = or_old_option dto.phone b.phone;
}

module _ (c : Client) (env : Env) where
  abbrev pub branch_of : ℕ → Db → Option Branch
  branch_of branch_id s = c.branch.find_first (λ b. b.id == branch_id) s.branches

  abbrev pub new_branch : ℕ → CreateBranchDto → Branch
  new_branch business_id dto = record {
    id = env.uuid 0;
    business_id = business_id;
    name = dto.name;
    address = dto.address;
    latitude = dto.latitude;
    longitude = dto.longitude;
    phone = dto.phone;
  }

  unfoldable pub insert_branch : Branch → Action (Unit {0})
  insert_branch b s = stored (c.branch.create b s.branches) set_branches s

  -- `create`
  unfoldable pub create_branch : ℕ → CreateBranchDto → Action Branch
  create_branch business_id dto = do
    insert_branch (new_branch business_id dto)
    pure (new_branch business_id dto)

  -- `findAll`
  unfoldable pub find_branches : ℕ → Action (List Branch)
  find_branches business_id =
      gets (λ s. c.branch.find_many (λ b. b.business_id == business_id) s.branches)

  -- `assertBelongsToBusiness`
  unfoldable pub assert_branch_of : ℕ → ℕ → Action Branch
  assert_branch_of business_id branch_id = do
    found ← gets (branch_of branch_id)
    throw_if (is_foreign_branch business_id found) not_found
    or_throw found not_found

  unfoldable pub set_branch : ℕ → (Branch → Branch) → Action Branch
  set_branch branch_id f s =
      stored_row (c.branch.update (λ b. b.id == branch_id) f s.branches) set_branches s

  -- `update`
  unfoldable pub update_branch : ℕ → ℕ → UpdateBranchDto → Action Branch
  update_branch business_id branch_id dto = do
    _ ← assert_branch_of business_id branch_id
    set_branch branch_id (with_branch_changes dto)
