-- ===== src/Booking/Reschedule.antt =====
-- `reschedule` of booking.service.ts.
use booking_platform_claude.Prelude.{ℕ, ◌/◌, not, some, ◌==◌, any}
use booking_platform_claude.Schema.{Booking}
use booking_platform_claude.Store.{Client, Env}
use booking_platform_claude.Store.Action.{
  Action, bad_request, record_not_found, conflict, gets, or_throw, throw_if, ◌>>=◌, ◌>>◌,
  transaction,
}
use booking_platform_claude.Availability.{CheckAvailabilityDto, FreeSlot, is_active, get_free_slots}
use booking_platform_claude.Availability.Slots.{day_millis}
use booking_platform_claude.Booking.Types.{end_of}
use booking_platform_claude.Booking.Slot.{assert_slot_free, get_owned_booking, update_booking}
use booking_platform_claude.Booking.Hold.{with_lock}

-- `newStart.toISOString().slice(0, 10)`
abbrev pub date_of : ℕ → ℕ
date_of t = t / day_millis

abbrev pub move_to : ℕ → ℕ → Booking → Booking
move_to start_time end_time b = record b { start_time = start_time; end_time = end_time }

-- What `reschedule` asks the availability of.
abbrev pub slot_query : Booking → ℕ → CheckAvailabilityDto
slot_query booking new_start = record {
  service_id = booking.service_id;
  staff_member_id = booking.staff_member_id;
  branch_id = some booking.branch_id;
  date = date_of new_start;
}

module _ (c : Client) (env : Env) where
  -- The callback of the transaction in `reschedule`.
  unfoldable pub move_booking : Booking → ℕ → ℕ → Action Booking
  move_booking booking new_start new_end = do
    assert_slot_free c booking.branch_id booking.staff_member_id new_start new_end (some booking.id)
    update_booking c booking.id (move_to new_start new_end)

  -- `reschedule`
  unfoldable pub reschedule : ℕ → ℕ → ℕ → Action Booking
  reschedule booking_id user_id new_start = do
    booking ← get_owned_booking c booking_id user_id
    throw_if (not (is_active booking.status)) bad_request
    found ← gets (λ s. c.service.find_first (λ v. v.id == booking.service_id) s.services)
    service ← or_throw found record_not_found
    free_slots ← get_free_slots c env booking.business_id (slot_query booking new_start)
    throw_if (not (any (λ (f : FreeSlot). f.start_time == new_start) free_slots)) conflict
    with_lock env.lock (transaction c (move_booking booking new_start (end_of service new_start)))
