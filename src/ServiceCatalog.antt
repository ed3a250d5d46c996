-- ===== src/ServiceCatalog.antt =====
-- apps/backend/src/modules/service/service-catalog.service.ts: the services of a business, and who
-- of its staff gives them.
use booking_platform_claude.Prelude.{
  ℕ, Bool, true, false, ◌&&◌, not, Option, none, some, List, ◌==◌,
}
use booking_platform_claude.Schema.{Service, ServiceStaff}
use booking_platform_claude.Store.{Db, Client, Env}
use booking_platform_claude.Store.Action.{
  Action, not_found, bad_request, record_not_found, err, ok, pure, gets, or_throw, throw_if, ◌>>=◌,
  ◌>>◌, stored, stored_row, stored_upsert,
}
use booking_platform_claude.Coupon.{or_old, or_old_option}
use booking_platform_claude.Staff.{staff_member_of, is_foreign_member}

-- `CreateServiceDto`; the price and the percentage are in hundredths.
pub record CreateServiceDto : Type 0 where
  pub name : ℕ
  pub description : Option ℕ
  pub duration_minutes : ℕ
  pub price : ℕ
  pub requires_deposit : Option Bool
  pub deposit_percent : Option ℕ

-- `UpdateServiceDto`
pub record UpdateServiceDto : Type 0 where
  pub name : Option ℕ
  pub description : Option ℕ
  pub duration_minutes : Option ℕ
  pub price : Option ℕ
  pub requires_deposit : Option Bool
  pub deposit_percent : Option ℕ

-- `dto.requiresDeposit`, as a condition
abbrev pub is_set : Option Bool → Bool
is_set none = false
is_set (some b) = b

-- `!dto.depositPercent`: missing, or 0
abbrev pub is_falsy : Option ℕ → Bool
is_falsy none = true
is_falsy (some n) = n == 0

-- `!service || service.businessId !== businessId`
abbrev pub is_foreign_service : ℕ → Option Service → Bool
is_foreign_service business_id none = true
is_foreign_service business_id (some v) = not (v.business_id == business_id)

abbrev set_services : List Service → Db → Db
set_services t s = record s { services = t }

abbrev set_service_staff : List ServiceStaff → Db → Db
set_service_staff t s = record s { service_staff = t }

abbrev pub with_service_changes : UpdateServiceDto → Service → Service
with_service_changes dto v = record v {
  name = or_old dto.name v.name;
  description = or_old_option dto.description v.description;
  duration_minutes = or_old dto.duration_minutes v.duration_minutes;
  price = or_old dto.price v.price;
  requires_deposit = or_old dto.requires_deposit v.requires_deposit;
  deposit_percent = or_old_option dto.deposit_percent v.deposit_percent;
}

module _ (c : Client) (env : Env) where
  abbrev pub new_service : ℕ → CreateServiceDto → Service
  new_service business_id dto = record {
    id = env.uuid 0;
    business_id = business_id;
    name = dto.name;
    description = dto.description;
    duration_minutes = dto.duration_minutes;
    price = dto.price;
    requires_deposit = or_old dto.requires_deposit false;
    deposit_percent = dto.deposit_percent;
    is_active = true;
  }

  unfoldable pub insert_service : Service → Action (Unit {0})
  insert_service v s = stored (c.service.create v s.services) set_services s

  -- `create`
  unfoldable pub create_service : ℕ → CreateServiceDto → Action Service
  create_service business_id dto = do
    throw_if (is_set dto.requires_deposit && is_falsy dto.deposit_percent) bad_request
    insert_service (new_service business_id dto)
    pure (new_service business_id dto)

  -- `findAll`
  unfoldable pub find_services : ℕ → Action (List Service)
  find_services business_id =
      gets (λ s. c.service.find_many (λ v. v.business_id == business_id) s.services)

  -- `assertBelongsToBusiness`
  unfoldable pub assert_service_of : ℕ → ℕ → Action Service
  assert_service_of business_id service_id = do
    found ← gets (λ s. c.service.find_first (λ v. v.id == service_id) s.services)
    throw_if (is_foreign_service business_id found) not_found
    or_throw found not_found

  unfoldable pub set_service : ℕ → (Service → Service) → Action Service
  set_service service_id f s =
      stored_row (c.service.update (λ v. v.id == service_id) f s.services) set_services s

  -- `update`
  unfoldable pub update_service : ℕ → ℕ → UpdateServiceDto → Action Service
  update_service business_id service_id dto = do
    _ ← assert_service_of business_id service_id
    set_service service_id (with_service_changes dto)

  -- The unique key `serviceId_staffMemberId`.
  abbrev pub is_assignment : ℕ → ℕ → ServiceStaff → Bool
  is_assignment service_id staff_member_id r =
      r.service_id == service_id && r.staff_member_id == staff_member_id

  unfoldable pub upsert_assignment : ℕ → ℕ → Action ServiceStaff
  upsert_assignment service_id staff_member_id s =
      stored_upsert
        (c.service_staff.upsert (is_assignment service_id staff_member_id)
          (record { service_id = service_id; staff_member_id = staff_member_id }) s.service_staff)
        set_service_staff s

  -- `assignStaff`
  unfoldable pub assign_staff : ℕ → ℕ → ℕ → Action ServiceStaff
  assign_staff business_id service_id staff_member_id = do
    _ ← assert_service_of business_id service_id
    staff ← gets (staff_member_of c env staff_member_id)
    throw_if (is_foreign_member business_id staff) not_found
    upsert_assignment service_id staff_member_id

  -- The result of a `delete`, stored back.
  abbrev without : Option (List ServiceStaff) → Action (Unit {0})
  without none s = (err record_not_found, s)
  without (some t) s = (ok tt, set_service_staff t s)

  unfoldable pub delete_assignment : ℕ → ℕ → Action (Unit {0})
  delete_assignment service_id staff_member_id s =
      without (c.service_staff.delete (is_assignment service_id staff_member_id) s.service_staff) s

  -- `unassignStaff`
  unfoldable pub unassign_staff : ℕ → ℕ → ℕ → Action (Unit {0})
  unassign_staff business_id service_id staff_member_id = do
    _ ← assert_service_of business_id service_id
    delete_assignment service_id staff_member_id
