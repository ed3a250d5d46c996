-- ===== src/Booking/Slot.antt =====
-- `loadAndValidateContext`, `assertSlotFree` and `getOwnedBooking` of booking.service.ts.
use booking_platform_claude.Prelude.{
  ℕ, Bool, ◌&&◌, not, Option, none, some, ltb, ◌==◌, opt_eq, is_some, true,
}
use booking_platform_claude.Schema.{Booking, Business, Service, is_approved}
use booking_platform_claude.Availability.{is_active}
use booking_platform_claude.Store.{Client}
use booking_platform_claude.Store.Action.{
  Action, not_found, conflict, pure, gets, or_throw, throw_if, ◌>>=◌, ◌>>◌, stored, stored_row,
}
use booking_platform_claude.Booking.Types.{set_bookings}

-- The query of `assertSlotFree`: an active booking for the same branch and member of staff (or for
-- nobody in particular) that the interval overlaps, other than the excluded one.
abbrev pub not_excluded : Option ℕ → ℕ → Bool
not_excluded none id = true
not_excluded (some e) id = not (id == e)

abbrev pub occupies : ℕ → Option ℕ → ℕ → ℕ → Option ℕ → Booking → Bool
occupies branch_id staff_id start_time end_time exclude b =
    b.branch_id == branch_id
    && (opt_eq b.staff_member_id staff_id
        && (is_active b.status
            && (not_excluded exclude b.id
                && (ltb b.start_time end_time && ltb start_time b.end_time))))

module _ (c : Client) where
  -- The member of staff, if one was asked for, works for the business.
  unfoldable pub check_staff : ℕ → Option ℕ → Action (Unit {0})
  check_staff business_id none = pure tt
  check_staff business_id (some staff_id) = do
    staff ← gets (λ s.
        c.staff_member.find_first
          (λ m. m.id == staff_id && (m.business_id == business_id && m.is_active)) s.staff_members)
    or_throw staff not_found
    pure tt

  -- The business and the service of a request.
  unfoldable pub load_and_validate_context : ℕ → ℕ → ℕ → Option ℕ → Action (Business × Service)
  unfolding check_staff
  load_and_validate_context business_id branch_id service_id staff_member_id = do
    found_business ←
        gets (λ s.
          c.business.find_first (λ b. b.id == business_id && is_approved b.status) s.businesses)
    business ← or_throw found_business not_found
    found_branch ← gets (λ s.
        c.branch.find_first (λ b. b.id == branch_id && b.business_id == business_id) s.branches)
    or_throw found_branch not_found
    found_service ← gets (λ s.
        c.service.find_first
          (λ v. v.id == service_id && (v.business_id == business_id && v.is_active)) s.services)
    service ← or_throw found_service not_found
    check_staff business_id staff_member_id
    pure (business, service)

  unfoldable pub assert_slot_free : ℕ → Option ℕ → ℕ → ℕ → Option ℕ → Action (Unit {0})
  assert_slot_free branch_id staff_id start_time end_time exclude = do
    overlapping ← gets (λ s.
        c.booking.find_first (occupies branch_id staff_id start_time end_time exclude) s.bookings)
    throw_if (is_some overlapping) conflict

  -- `booking.findFirst({ where })`, and the exception if there is none
  unfoldable pub find_booking : (Booking → Bool) → Action Booking
  find_booking where_ = do
    found ← gets (λ s. c.booking.find_first where_ s.bookings)
    or_throw found not_found

  unfoldable pub get_owned_booking : ℕ → ℕ → Action Booking
  get_owned_booking booking_id user_id =
      find_booking (λ b. b.id == booking_id && b.user_id == user_id)

  -- `tx.booking.create`
  unfoldable pub create_booking : Booking → Action Booking
  create_booking b = do λ s. stored (c.booking.create b s.bookings) set_bookings s; pure b

  -- `booking.update({ where: { id }, data })`
  unfoldable pub update_booking : ℕ → (Booking → Booking) → Action Booking
  update_booking id data' s =
      stored_row (c.booking.update (λ b. b.id == id) data' s.bookings) set_bookings s
