-- ===== src/Api/Frames.antt =====
-- The methods of apps/backend/src/modules/branch, service, working-hours, coupon and booking that leave
-- the businesses and their staff alone.
use booking_platform_claude.Prelude.{ℕ, Option, none, some, List, arith}
use booking_platform_claude.Schema.{Holiday, DocumentType}
use booking_platform_claude.Store.{Db, Client, Env}
use booking_platform_claude.Booking.Types.{TargetStatus}
use booking_platform_claude.Booking.Slot.{find_booking, update_booking}
use booking_platform_claude.Booking.Cancel.{cancel_internal, cancel_by_business, update_status}
use booking_platform_claude.Business.{
  assert_exists, add_document, insert_document, find_one_for_owner,
}
use booking_platform_claude.Business.Owned.{SameStaff}
use booking_platform_claude.Branch.{
  CreateBranchDto, UpdateBranchDto, create_branch, update_branch, insert_branch, assert_branch_of,
  set_branch,
}
use booking_platform_claude.ServiceCatalog.{
  CreateServiceDto, UpdateServiceDto, create_service, update_service, assign_staff, unassign_staff,
  insert_service, assert_service_of, set_service, upsert_assignment, delete_assignment,
}
use booking_platform_claude.WorkingHours.{
  Target, WorkingHourEntryDto, resolve_target, replace_hours, delete_hours, create_hours,
  insert_holiday,
}
use booking_platform_claude.Coupon.{CreateCouponDto, UpdateCouponDto}
use booking_platform_claude.Coupon

module _ (c : Client) (env : Env) where
  pub add_document-SameStaff :
      (id : ℕ) (type : DocumentType) (url : ℕ) (s : Db)
      → SameStaff s (add_document c env id type url s).1
  unfolding add_document assert_exists insert_document
  add_document-SameStaff id type url s = ground arith

  pub create_branch-SameStaff :
      (id : ℕ) (dto : CreateBranchDto) (s : Db) → SameStaff s (create_branch c env id dto s).1
  unfolding create_branch insert_branch
  create_branch-SameStaff id dto s = ground arith

  pub update_branch-SameStaff :
      (id branch_id : ℕ) (dto : UpdateBranchDto) (s : Db)
      → SameStaff s (update_branch c env id branch_id dto s).1
  unfolding update_branch assert_branch_of set_branch
  update_branch-SameStaff id branch_id dto s = ground arith

  pub create_service-SameStaff :
      (id : ℕ) (dto : CreateServiceDto) (s : Db) → SameStaff s (create_service c env id dto s).1
  unfolding create_service insert_service
  create_service-SameStaff id dto s = ground arith

  pub update_service-SameStaff :
      (id service_id : ℕ) (dto : UpdateServiceDto) (s : Db)
      → SameStaff s (update_service c env id service_id dto s).1
  unfolding update_service assert_service_of set_service
  update_service-SameStaff id service_id dto s = ground arith

  pub assign_staff-SameStaff :
      (id service_id member_id : ℕ) (s : Db)
      → SameStaff s (assign_staff c env id service_id member_id s).1
  unfolding assign_staff assert_service_of upsert_assignment
  assign_staff-SameStaff id service_id member_id s = ground arith

  pub unassign_staff-SameStaff :
      (id service_id member_id : ℕ) (s : Db)
      → SameStaff s (unassign_staff c env id service_id member_id s).1
  unfolding unassign_staff assert_service_of delete_assignment
  unassign_staff-SameStaff id service_id member_id s = ground arith

  pub resolve_target-SameStaff :
      (id : ℕ) (branch_id member_id : Option ℕ) (s : Db)
      → SameStaff s (resolve_target c env id branch_id member_id s).1
  unfolding resolve_target
  resolve_target-SameStaff id none none s = ground arith
  resolve_target-SameStaff id none (some m) s = ground arith
  resolve_target-SameStaff id (some b) none s = ground arith
  resolve_target-SameStaff id (some b) (some m) s = ground arith

  pub insert_holiday-SameStaff : (h : Holiday) (s : Db) → SameStaff s (insert_holiday c env h s).1
  unfolding insert_holiday
  insert_holiday-SameStaff h s = ground arith

  pub replace_hours-SameStaff :
      (target : Target) (hours : List WorkingHourEntryDto) (s : Db)
      → SameStaff s (replace_hours c env target hours s).1
  unfolding replace_hours delete_hours create_hours
  replace_hours-SameStaff target hours s = ground arith

  pub update_status-SameStaff :
      (id booking_id : ℕ) (target : TargetStatus) (s : Db)
      → SameStaff s (update_status c env id booking_id target s).1
  unfolding update_status find_booking update_booking
  update_status-SameStaff id booking_id target s = ground arith

  pub cancel_by_business-SameStaff :
      (id booking_id : ℕ) (reason : Option ℕ) (s : Db)
      → SameStaff s (cancel_by_business c env id booking_id reason s).1
  unfolding cancel_by_business find_booking cancel_internal update_booking
  cancel_by_business-SameStaff id booking_id reason s = ground arith

  pub create_coupon-SameStaff :
      (id : Option ℕ) (dto : CreateCouponDto) (s : Db)
      → SameStaff s (Coupon.create c env id dto s).1
  unfolding Coupon.create
  create_coupon-SameStaff id dto s = ground arith

  pub update_coupon-SameStaff :
      (id : ℕ) (dto : UpdateCouponDto) (s : Db) → SameStaff s (Coupon.update c env id dto s).1
  unfolding Coupon.update
  update_coupon-SameStaff id dto s = ground arith

  pub reads-SameStaff : (id : ℕ) (s : Db) → SameStaff s (find_one_for_owner c env id s).1
  unfolding find_one_for_owner
  reads-SameStaff id s = ground arith
