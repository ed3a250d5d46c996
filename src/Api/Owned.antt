-- ===== src/Api/Owned.antt =====
-- The owners of businesses under the requests that open, review and run businesses: the controllers
-- of apps/backend/src/modules/business, branch, staff, service, working-hours, coupon, the two routes
-- of booking below a business, and admin/business.
use booking_platform_claude.Prelude.{ℕ, refl, Option, some, any}
use booking_platform_claude.Store.{Db, Client, Env}
use booking_platform_claude.Store.Action.{Action, bad_request}
use booking_platform_claude.Store.Holds.{bind_holds, transaction_holds, throw_if_holds}
use booking_platform_claude.Booking.Cancel.{cancel_by_business, update_status}
use booking_platform_claude.Business.{
  add_document, find_one_for_owner, update_business, update_cancellation_policy, with_changes,
}
use booking_platform_claude.Business.Owned.{
  Owned, SameStaff, Owned-same, deactivate-Owned, invite-Owned, changed-Owned,
}
use booking_platform_claude.Staff.{invite, deactivate}
use booking_platform_claude.Branch.{create_branch, update_branch}
use booking_platform_claude.ServiceCatalog.{
  create_service, update_service, assign_staff, unassign_staff,
}
use booking_platform_claude.WorkingHours.{
  SetWorkingHoursDto, AddHolidayDto, set_working_hours, add_holiday, list_holidays, resolve_target,
  replace_hours, insert_holiday, new_holiday, is_backwards,
}
use booking_platform_claude.Coupon.{CreateCouponDto, UpdateCouponDto}
use booking_platform_claude.Coupon
use booking_platform_claude.Api.Business.{
  BusinessRequest, reads_business, updates_business, sets_policy, adds_document, creates_branch,
  updates_branch, invites, deactivates, creates_service, updates_service, assigns, unassigns,
  sets_hours, adds_holiday, lists_holidays, sets_booking_status, cancels_booking, creates_coupon,
  updates_coupon, handle_business, done,
}
use booking_platform_claude.Api.Frames.{
  add_document-SameStaff, create_branch-SameStaff, update_branch-SameStaff,
  create_service-SameStaff, update_service-SameStaff, assign_staff-SameStaff,
  unassign_staff-SameStaff, resolve_target-SameStaff, insert_holiday-SameStaff,
  replace_hours-SameStaff, update_status-SameStaff, cancel_by_business-SameStaff,
  create_coupon-SameStaff, update_coupon-SameStaff, reads-SameStaff,
}

module _ (c : Client) (env : Env) where
  set_working_hours-Owned :
      (id : ℕ) (dto : SetWorkingHoursDto) (s : Db)
      → Owned s
      → Owned (set_working_hours c env id dto s).1
  unfolding set_working_hours
  set_working_hours-Owned id dto s h =
      bind_holds Owned (resolve_target c env id dto.branch_id dto.staff_member_id) _ s
        (Owned-same s (resolve_target c env id dto.branch_id dto.staff_member_id s).1
          (resolve_target-SameStaff c env id dto.branch_id dto.staff_member_id s) h)
        (λ target t _ ht. throw_if_holds Owned (any is_backwards dto.hours) bad_request _ t ht (λ _.
          transaction_holds Owned c (replace_hours c env target dto.hours) t ht (
            Owned-same t (replace_hours c env target dto.hours t).1
              (replace_hours-SameStaff c env target dto.hours t) ht)))

  add_holiday-Owned :
      (id : ℕ) (dto : AddHolidayDto) (s : Db) → Owned s → Owned (add_holiday c env id dto s).1
  unfolding add_holiday
  add_holiday-Owned id dto s h =
      bind_holds Owned (resolve_target c env id dto.branch_id dto.staff_member_id) _ s
        (Owned-same s (resolve_target c env id dto.branch_id dto.staff_member_id s).1
          (resolve_target-SameStaff c env id dto.branch_id dto.staff_member_id s) h)
        (λ target t _ ht.
          bind_holds Owned (insert_holiday c env (new_holiday c env target dto)) _ t
            (Owned-same t (insert_holiday c env (new_holiday c env target dto) t).1
              (insert_holiday-SameStaff c env (new_holiday c env target dto) t) ht)
            (λ _ u _ hu. hu))

  list_holidays-Owned :
      (id : ℕ) (branch_id member_id : Option ℕ) (s : Db)
      → Owned s
      → Owned (list_holidays c env id branch_id member_id s).1
  unfolding list_holidays
  list_holidays-Owned id branch_id member_id s h =
      bind_holds Owned (resolve_target c env id branch_id member_id) _ s
        (Owned-same s (resolve_target c env id branch_id member_id s).1
          (resolve_target-SameStaff c env id branch_id member_id s) h)
        (λ target t _ ht. ht)

  pub done-Owned : {A : Type 0} (m : Action A) (s : Db) → Owned (m s).1 → Owned (done m s).1
  done-Owned m s h = bind_holds Owned m _ s h (λ _ t _ ht. ht)

  done-same :
      {A : Type 0} (m : Action A) (s : Db) → SameStaff s (m s).1 → Owned s → Owned (done m s).1
  done-same m s e h = done-Owned m s (Owned-same s (m s).1 e h)

  pub handle_business-Owned :
      (id : ℕ) (r : BusinessRequest) (s : Db) → Owned s → Owned (handle_business c env id r s).1
  unfolding handle_business update_business update_cancellation_policy
  handle_business-Owned id reads_business s h =
      done-same (find_one_for_owner c env id) s (reads-SameStaff c env id s) h
  handle_business-Owned id (updates_business dto) s h =
      done-Owned (update_business c env id dto) s
        (changed-Owned c env id (with_changes dto) s (λ b. (refl, refl)) h)
  handle_business-Owned id (sets_policy policy) s h =
      done-Owned (update_cancellation_policy c env id policy) s (
        changed-Owned c env id (λ b. record b { cancellation_policy = policy }) s
          (λ b. (refl, refl)) h)
  handle_business-Owned id (adds_document type url) s h =
      done-same (add_document c env id type url) s (add_document-SameStaff c env id type url s) h
  handle_business-Owned id (creates_branch dto) s h =
      done-same (create_branch c env id dto) s (create_branch-SameStaff c env id dto s) h
  handle_business-Owned id (updates_branch branch_id dto) s h =
      done-same (update_branch c env id branch_id dto) s
        (update_branch-SameStaff c env id branch_id dto s) h
  handle_business-Owned id (invites dto) s h =
      done-Owned (invite c env id dto) s (invite-Owned c env id dto s h)
  handle_business-Owned id (deactivates member_id) s h =
      done-Owned (deactivate c env id member_id) s (deactivate-Owned c env id member_id s h)
  handle_business-Owned id (creates_service dto) s h =
      done-same (create_service c env id dto) s (create_service-SameStaff c env id dto s) h
  handle_business-Owned id (updates_service service_id dto) s h =
      done-same (update_service c env id service_id dto) s
        (update_service-SameStaff c env id service_id dto s) h
  handle_business-Owned id (assigns service_id member_id) s h =
      done-same (assign_staff c env id service_id member_id) s
        (assign_staff-SameStaff c env id service_id member_id s) h
  handle_business-Owned id (unassigns service_id member_id) s h =
      done-same (unassign_staff c env id service_id member_id) s
        (unassign_staff-SameStaff c env id service_id member_id s) h
  handle_business-Owned id (sets_hours dto) s h =
      done-Owned (set_working_hours c env id dto) s (set_working_hours-Owned id dto s h)
  handle_business-Owned id (adds_holiday dto) s h =
      done-Owned (add_holiday c env id dto) s (add_holiday-Owned id dto s h)
  handle_business-Owned id (lists_holidays branch_id member_id) s h =
      done-Owned (list_holidays c env id branch_id member_id) s
        (list_holidays-Owned id branch_id member_id s h)
  handle_business-Owned id (sets_booking_status booking_id target) s h =
      done-same (update_status c env id booking_id target) s
        (update_status-SameStaff c env id booking_id target s) h
  handle_business-Owned id (cancels_booking booking_id reason) s h =
      done-same (cancel_by_business c env id booking_id reason) s
        (cancel_by_business-SameStaff c env id booking_id reason s) h
  handle_business-Owned id (creates_coupon dto) s h =
      done-same (Coupon.create c env (some id) dto) s
        (create_coupon-SameStaff c env (some id) dto s) h
  handle_business-Owned id (updates_coupon coupon_id dto) s h =
      done-same (Coupon.update c env coupon_id dto) s
        (update_coupon-SameStaff c env coupon_id dto s) h
