-- ===== src/Tests/Bookings.antt =====
-- The theorems on bookings, applied.
use booking_platform_claude.Prelude.{
  true, ℕ, ◌*◌, ◌≡◌, refl, false, none, some, List, [], ◌∷◌, arith, All, AllPairs, In, ◌≤◌, ◌+◌,
  keep, length, update_where, any, ◌==◌, inl,
}
use booking_platform_claude.Schema.{Booking, BookingStatus, CancelReason}
use booking_platform_claude.Store.{Db, Env, LockOutcome}
use booking_platform_claude.Store.Memory.{memory}
use booking_platform_claude.Store.Action.{ok, conflict}
use booking_platform_claude.Availability.Slots.{Window, at_time, minute_millis, generate_slots}
use booking_platform_claude.Availability.Slots.Sound.{IsFree, generate_slots-IsFree}
use booking_platform_claude.Availability.Slots.Ends.{LoopRun, generate_slots-LoopRun}
use booking_platform_claude.Availability.Slots.Complete.{generate_slots_complete}
use booking_platform_claude.Booking.Types.{HoldBookingDto, CreateRecurringBookingDto, TargetStatus}
use booking_platform_claude.Booking.Slot.{
  load_and_validate_context, check_staff, assert_slot_free, create_booking,
}
use booking_platform_claude.Booking.Hold.{hold, claim_slot, held_booking}
use booking_platform_claude.Booking.Recurring.{create_each, create_recurring, recurring_booking}
use booking_platform_claude.Booking.Cancel.{
  Cancellation, mark_cancelled, cancel_internal, cancel_by_user,
}
use booking_platform_claude.Booking.Fee.{IsCancelled, cancel_by_user-IsCancelled}
use booking_platform_claude.Booking.Slot.{get_owned_booking, find_booking, update_booking}
use booking_platform_claude.Booking.Confirm.{confirm}
use booking_platform_claude.Booking.Cancel.{release_expired_holds}
use booking_platform_claude.Booking.Created.{IsHeld, hold-IsHeld}
use booking_platform_claude.Booking.Series.{IsSeries, create_recurring-IsSeries}
use booking_platform_claude.Booking.Atomic.{create_recurring-err}
use booking_platform_claude.Booking.Expiry.{release_expired_holds-clears, given_up, has_run_out}
use booking_platform_claude.Booking.Safety.{NoDoubleBooking}
use booking_platform_claude.Coupon.{
  check_and_redeem, check_and_compute, check_coupon, create_usage, count_usage, link_usage,
  discount_of, rounded_discount,
}
use booking_platform_claude.System.{Call, holds, confirms, sets_status, releases_holds, run}
use booking_platform_claude.System.Safety.{run-NoDoubleBooking, run-AllFollowed, run-can_become}
use booking_platform_claude.Booking.Safety.History.{AllFollowed, can_become}
use booking_platform_claude.Tests.{clock, shop_db, booked, shop, haircut}

abbrev asked : ℕ → HoldBookingDto
asked hour = record {
  business_id = 1;
  branch_id = 2;
  service_id = 3;
  staff_member_id = none;
  start_time = hour * 3600000;
  coupon_code = some 55;
}

abbrev weekly : ℕ → CreateRecurringBookingDto
weekly hour = record {
  business_id = 1;
  branch_id = 2;
  service_id = 3;
  staff_member_id = none;
  start_time = hour * 3600000;
  occurrences = 2;
}

-- A hold, its confirmation, a clash with the booked hour, a completed booking, and the cleanup.
abbrev morning : List (Env × Call)
morning =
    (clock 1000, holds 7 (asked 5))
    ∷ (clock 2000, confirms 100 7)
    ∷ (clock 3000, holds 8 (asked 3))
    ∷ (clock 4000, sets_status 1 20 TargetStatus.completed)
    ∷ (clock 9000000, releases_holds)
    ∷ []

run-NoDoubleBooking_example :
    NoDoubleBooking (run memory morning (shop_db BookingStatus.confirmed)).bookings
unfolding NoDoubleBooking
run-NoDoubleBooking_example =
    run-NoDoubleBooking memory morning (shop_db BookingStatus.confirmed) (tt, tt)

run-AllFollowed_example :
    AllFollowed
      (shop_db BookingStatus.confirmed).bookings
      (run memory morning (shop_db BookingStatus.confirmed)).bookings
unfolding NoDoubleBooking
run-AllFollowed_example = run-AllFollowed memory morning (shop_db BookingStatus.confirmed) (tt, tt)

run-can_become_example :
    (b : Booking) × In b (run memory morning (shop_db BookingStatus.completed)).bookings
    × (b.id ≡ 20)
    × (can_become BookingStatus.completed b.status ≡ true)
unfolding NoDoubleBooking
run-can_become_example =
    run-can_become memory morning (shop_db BookingStatus.completed)
      (booked BookingStatus.completed 300000) (tt, tt) (inl refl)

-- The fifth off is taken.
abbrev cut : Booking
cut = held_booking memory (clock 1000) 7 (asked 5) shop haircut 4000000

hold-IsHeld_example :
    IsHeld
      (clock 1000)
      7
      (asked 5)
      (shop_db BookingStatus.confirmed)
      (hold memory (clock 1000) 7 (asked 5) (shop_db BookingStatus.confirmed)).1
      cut
unfolding hold load_and_validate_context check_staff claim_slot assert_slot_free create_booking
    check_and_redeem check_and_compute check_coupon create_usage count_usage link_usage discount_of
    rounded_discount
hold-IsHeld_example =
    hold-IsHeld memory (clock 1000) 7 (asked 5) (shop_db BookingStatus.confirmed)
      (hold memory (clock 1000) 7 (asked 5) (shop_db BookingStatus.confirmed)).1 cut refl

-- The hold is written, and then Redis fails when its lock is to be released.
abbrev lost : Env
lost = record (clock 1000) { lock = LockOutcome.unreleased }

abbrev nth_week : ℕ → ℕ → Booking
nth_week k start = recurring_booking memory (clock 1000) 7 (weekly 5) shop haircut (100 + k) start

create_recurring-IsSeries_example :
    IsSeries
      (clock 1000)
      7
      (weekly 5)
      (shop_db BookingStatus.confirmed)
      (create_recurring memory (clock 1000) 7 (weekly 5) (shop_db BookingStatus.confirmed)).1
      (nth_week 1 18000000 ∷ nth_week 2 622800000 ∷ [])
unfolding create_recurring create_each load_and_validate_context check_staff assert_slot_free
    create_booking
create_recurring-IsSeries_example =
    create_recurring-IsSeries memory (clock 1000) 7 (weekly 5) (shop_db BookingStatus.confirmed)
      (create_recurring memory (clock 1000) 7 (weekly 5) (shop_db BookingStatus.confirmed)).1
      (nth_week 1 18000000 ∷ nth_week 2 622800000 ∷ []) refl

create_recurring-err_example :
    (create_recurring memory (clock 1000) 7 (weekly 3) (shop_db BookingStatus.confirmed)).1
    ≡ shop_db BookingStatus.confirmed
unfolding create_recurring create_each load_and_validate_context check_staff assert_slot_free
    create_booking
create_recurring-err_example =
    create_recurring-err memory (clock 1000) 7 (weekly 3) (shop_db BookingStatus.confirmed)
      (create_recurring memory (clock 1000) 7 (weekly 3) (shop_db BookingStatus.confirmed)).1
      conflict refl

release_expired_holds-clears_example :
    ((release_expired_holds memory (clock 400000) (shop_db BookingStatus.hold)).0
      ≡ ok (length (keep (has_run_out 400000) (shop_db BookingStatus.hold).bookings)))
    × ((release_expired_holds memory (clock 400000) (shop_db BookingStatus.hold)).1.bookings
        ≡ update_where
            (has_run_out 400000)
            (given_up CancelReason.auto_expired)
            (shop_db BookingStatus.hold).bookings)
    × (any
          (has_run_out 400000)
          (release_expired_holds memory (clock 400000) (shop_db BookingStatus.hold)).1.bookings
        ≡ false)
release_expired_holds-clears_example =
    release_expired_holds-clears memory (clock 400000) (shop_db BookingStatus.hold)

abbrev expired_db : Db
expired_db = (confirm memory (clock 400000) 0 20 7 (shop_db BookingStatus.hold)).1

-- Open from one to five o'clock.
abbrev open_hours : Window
open_hours = record {
  start_time = record { hours = 1; minutes = 0 };
  end_time = record { hours = 5; minutes = 0 };
}

abbrev taken : List Booking
taken = booked BookingStatus.confirmed 0 ∷ []

generate_slots_complete_example : In 7200000 (generate_slots 3600000 0 open_hours 60 taken)
generate_slots_complete_example =
    generate_slots_complete 3600000 0 open_hours 60 taken 1 7200000 (omega arith) refl (omega arith)
      (omega arith) refl

generate_slots-LoopRun_example :
    LoopRun 3600000
      (60 * minute_millis)
      (at_time 0 open_hours.end_time)
      taken
      (at_time 0 open_hours.start_time)
      (generate_slots 3600000 0 open_hours 60 taken)
generate_slots-LoopRun_example = generate_slots-LoopRun 3600000 0 open_hours 60 taken (omega arith)

generate_slots-IsFree_example :
    All
      (IsFree 3600000
        (at_time 0 open_hours.start_time)
        (60 * minute_millis)
        (at_time 0 open_hours.end_time)
        taken)
      (generate_slots 3600000 0 open_hours 60 taken)
    × AllPairs (λ a b. a + 60 * minute_millis ≤ b) (generate_slots 3600000 0 open_hours 60 taken)
generate_slots-IsFree_example = generate_slots-IsFree 3600000 0 open_hours 60 taken

-- One hour before the start: the fee of half the price applies.
abbrev late_cancellation : Cancellation
late_cancellation = record {
  booking = mark_cancelled 7200000 none (booked BookingStatus.confirmed 300000);
  fee_applied = true;
  fee_percent = 50;
}

cancel_by_user-IsCancelled_example :
    (b : Booking) × ((b.user_id == 7) ≡ true)
    × IsCancelled 20 true 7200000 none
        (shop_db BookingStatus.confirmed)
        (cancel_by_user memory (clock 7200000) 20 7 none (shop_db BookingStatus.confirmed)).1
        late_cancellation
        b
unfolding cancel_by_user cancel_internal get_owned_booking find_booking update_booking
cancel_by_user-IsCancelled_example =
    cancel_by_user-IsCancelled memory (clock 7200000) 20 7 none (shop_db BookingStatus.confirmed)
      (cancel_by_user memory (clock 7200000) 20 7 none (shop_db BookingStatus.confirmed)).1
      late_cancellation refl
