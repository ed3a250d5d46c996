-- ===== src/Booking/Safety/Moves.antt =====
-- `reschedule` keeps the bookings free of double bookings.
use booking_platform_claude.Prelude.{
  List, ℕ, ◌≡◌, sym, subst, ap, ◌&&◌, not, some, arith, In, ◌==◌, any, Option-cases, inl, inr,
}
use booking_platform_claude.Schema.{Booking}
use booking_platform_claude.Store.{Db, Client, Env}
use booking_platform_claude.Store.Holds.{bind_holds, transaction_holds}
use booking_platform_claude.Store.Action.{transaction, bad_request, conflict, record_not_found}
use booking_platform_claude.Availability.{CheckAvailabilityDto, FreeSlot, is_active, get_free_slots}
use booking_platform_claude.Booking.Types.{end_of}
use booking_platform_claude.Booking.Slot.{get_owned_booking, assert_slot_free, update_booking}
use booking_platform_claude.Booking.Reschedule.{slot_query, move_to, move_booking, reschedule}
use booking_platform_claude.Booking.Safety.Queries.{
  IsSafe, IsSafe-same, assert_slot_free-reads, assert_slot_free_lem, move_booking-IsSafe,
}
use booking_platform_claude.Booking.Safety.Steps.{
  found_holds, guarded_holds, locked-IsSafe, reading_holds, required_holds,
}

module _ (c : Client) (env : Env) where
  pub get_free_slots-reads :
      (business_id : ℕ) (dto : CheckAvailabilityDto) (s : Db)
      → (get_free_slots c env business_id dto s).1 ≡ s
  unfolding get_free_slots
  get_free_slots-reads business_id dto s = elim (Option-cases dto.staff_member_id) [
    | inl e ↦ ground arith
    | inr (staff_id, e) ↦ ground arith
  ]

  move-IsSafe :
      (t0 : List Booking) (b : Booking) (start finish : ℕ) (s : Db)
      → In b s.bookings
      → IsSafe t0 s
      → IsSafe t0 (move_booking c env b start finish s).1
  unfolding move_booking
  move-IsSafe t0 b start finish s i h =
      let asserting = assert_slot_free c b.branch_id b.staff_member_id start finish (some b.id) in
      bind_holds (IsSafe t0) asserting _ s
        (IsSafe-same t0 s _
          (ap (λ (z : Db). z.bookings)
            (assert_slot_free-reads c b.branch_id b.staff_member_id start finish (some b.id) s))
          h)
        λ u t asserted _.
          let (same, free) =
            assert_slot_free_lem c b.branch_id b.staff_member_id start finish (some b.id) s t u
              asserted in
          subst (λ (z : Db). IsSafe t0 (update_booking c b.id (move_to start finish) z).1)
            (sym same) (move_booking-IsSafe c t0 b start finish s i free h)

  -- A change of time leaves no double booking, whether it succeeds or throws.
  pub reschedule-IsSafe :
      (t0 : List Booking) (booking_id user_id new_start : ℕ) (s : Db)
      → IsSafe t0 s
      → IsSafe t0 (reschedule c env booking_id user_id new_start s).1
  unfolding reschedule get_owned_booking
  reschedule-IsSafe t0 booking_id user_id new_start s h =
      found_holds t0 c (λ b. b.id == booking_id && b.user_id == user_id) _ s h
        λ b i _. guarded_holds t0 bad_request (not (is_active b.status)) _ s h λ _.
          required_holds t0 record_not_found
            (c.service.find_first (λ v. v.id == b.service_id) s.services) _ s h
            λ service.
              reading_holds t0 (get_free_slots c env b.business_id (slot_query b new_start)) _ s h
                (get_free_slots-reads b.business_id (slot_query b new_start) s)
                λ free_slots.
                  guarded_holds t0 conflict
                    (not (any (λ (f : FreeSlot). f.start_time == new_start) free_slots)) _ s h
                    λ _.
                      let moving = move_booking c env b new_start (end_of service new_start) in
                      locked-IsSafe t0 env.lock (transaction c moving) s h (
                        transaction_holds (IsSafe t0) c moving s h
                          (move-IsSafe t0 b new_start (end_of service new_start) s i h))
