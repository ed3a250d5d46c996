-- ===== src/Api/Business.antt =====
-- The routes below `businesses/:id` and the roles each asks for: the controllers business, branch,
-- staff, service-catalog, working-hours, business-booking and business-coupon of
-- apps/backend/src/modules. What a handler answers is left out, so its lists for display are too.
use booking_platform_claude.Prelude.{ℕ, Option, some, List, [], ◌∷◌}
use booking_platform_claude.Schema.{StaffRole, CancellationPolicy, DocumentType}
use booking_platform_claude.Store.{Client, Env}
use booking_platform_claude.Store.Action.{Action, pure, ◌>>=◌}
use booking_platform_claude.Booking.Types.{TargetStatus}
use booking_platform_claude.Booking.Cancel.{cancel_by_business, update_status}
use booking_platform_claude.Business.{
  UpdateBusinessDto, find_one_for_owner, update_business, update_cancellation_policy, add_document,
}
use booking_platform_claude.Branch.{CreateBranchDto, UpdateBranchDto, create_branch, update_branch}
use booking_platform_claude.Staff.{InviteStaffDto, invite, deactivate}
use booking_platform_claude.ServiceCatalog.{
  CreateServiceDto, UpdateServiceDto, create_service, update_service, assign_staff, unassign_staff,
}
use booking_platform_claude.WorkingHours.{
  SetWorkingHoursDto, AddHolidayDto, set_working_hours, add_holiday, list_holidays,
}
use booking_platform_claude.Coupon.{CreateCouponDto, UpdateCouponDto}
use booking_platform_claude.Coupon

pub data BusinessRequest : Type 0 where
  reads_business : BusinessRequest
  updates_business : UpdateBusinessDto → BusinessRequest
  sets_policy : CancellationPolicy → BusinessRequest
  adds_document : DocumentType → ℕ → BusinessRequest
  creates_branch : CreateBranchDto → BusinessRequest
  updates_branch : ℕ → UpdateBranchDto → BusinessRequest
  invites : InviteStaffDto → BusinessRequest
  deactivates : ℕ → BusinessRequest
  creates_service : CreateServiceDto → BusinessRequest
  updates_service : ℕ → UpdateServiceDto → BusinessRequest
  assigns : ℕ → ℕ → BusinessRequest
  unassigns : ℕ → ℕ → BusinessRequest
  sets_hours : SetWorkingHoursDto → BusinessRequest
  adds_holiday : AddHolidayDto → BusinessRequest
  lists_holidays : Option ℕ → Option ℕ → BusinessRequest
  sets_booking_status : ℕ → TargetStatus → BusinessRequest
  cancels_booking : ℕ → Option ℕ → BusinessRequest
  creates_coupon : CreateCouponDto → BusinessRequest
  updates_coupon : ℕ → UpdateCouponDto → BusinessRequest

abbrev anyone_of_staff : List StaffRole
anyone_of_staff = StaffRole.owner ∷ StaffRole.manager ∷ StaffRole.staff ∷ []

abbrev managers : List StaffRole
managers = StaffRole.owner ∷ StaffRole.manager ∷ []

-- The arguments of `@BusinessRoles`.
unfoldable pub business_roles_of : BusinessRequest → List StaffRole
business_roles_of reads_business = anyone_of_staff
business_roles_of (sets_policy policy) = StaffRole.owner ∷ []
business_roles_of (adds_document type url) = StaffRole.owner ∷ []
business_roles_of (lists_holidays branch_id staff_member_id) = anyone_of_staff
business_roles_of (updates_business dto) = managers
business_roles_of (creates_branch dto) = managers
business_roles_of (updates_branch id dto) = managers
business_roles_of (invites dto) = managers
business_roles_of (deactivates id) = managers
business_roles_of (creates_service dto) = managers
business_roles_of (updates_service id dto) = managers
business_roles_of (assigns service_id staff_member_id) = managers
business_roles_of (unassigns service_id staff_member_id) = managers
business_roles_of (sets_hours dto) = managers
business_roles_of (adds_holiday dto) = managers
business_roles_of (sets_booking_status id target) = managers
business_roles_of (cancels_booking id reason) = managers
business_roles_of (creates_coupon dto) = managers
business_roles_of (updates_coupon id dto) = managers

abbrev pub done : {A : Type 0} → Action A → Action (Unit {0})
done m = m >>= λ _. pure tt

module _ (c : Client) (env : Env) where
  -- The handler of a request to the business of the path.
  unfoldable pub handle_business : ℕ → BusinessRequest → Action (Unit {0})
  handle_business id reads_business = done (find_one_for_owner c env id)
  handle_business id (updates_business dto) = done (update_business c env id dto)
  handle_business id (sets_policy policy) = done (update_cancellation_policy c env id policy)
  handle_business id (adds_document type url) = done (add_document c env id type url)
  handle_business id (creates_branch dto) = done (create_branch c env id dto)
  handle_business id (updates_branch branch_id dto) = done (update_branch c env id branch_id dto)
  handle_business id (invites dto) = done (invite c env id dto)
  handle_business id (deactivates member_id) = done (deactivate c env id member_id)
  handle_business id (creates_service dto) = done (create_service c env id dto)
  handle_business id (updates_service service_id dto) =
      done (update_service c env id service_id dto)
  handle_business id (assigns service_id member_id) =
      done (assign_staff c env id service_id member_id)
  handle_business id (unassigns service_id member_id) =
      done (unassign_staff c env id service_id member_id)
  handle_business id (sets_hours dto) = done (set_working_hours c env id dto)
  handle_business id (adds_holiday dto) = done (add_holiday c env id dto)
  handle_business id (lists_holidays branch_id member_id) =
      done (list_holidays c env id branch_id member_id)
  handle_business id (sets_booking_status booking_id target) =
      done (update_status c env id booking_id target)
  handle_business id (cancels_booking booking_id reason) =
      done (cancel_by_business c env id booking_id reason)
  handle_business id (creates_coupon dto) = done (Coupon.create c env (some id) dto)
  handle_business id (updates_coupon coupon_id dto) = done (Coupon.update c env coupon_id dto)
